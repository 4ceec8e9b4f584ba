-- ===== src/Realtime/Hub/Registry/Lists.antt =====
-- The lists of the registry: what stays bounded, and what a write leaves for each collection.
use lazypock.Base.{
  ℕ, ◌+◌, ◌≤◌, ◌<◌, Bool, true, false, List, [], ◌∷◌, ◌++◌, ◌≡◌, ap, sym, arith, if◌then◌else◌, All,
  Bool-cases, inl, inr, length, any, null, retain, ◌==◌,
}
use lazypock.Base.Text.{Text, text_eq, text_eq_iff}
use lazypock.Base.Dict.{Dict, lookup, insert, remove, lookup-insert, lookup-remove}
use lazypock.Realtime.Hub.{Subscriber, trim_seen, remember, recent_ids, listed}

pub trim_seen-le : (xs : List Text) → length (trim_seen xs) ≤ recent_ids
unfolding trim_seen
trim_seen-le [] = omega arith
trim_seen-le (x ∷ xs) = ground (arith, trim_seen-le xs)

-- A subscription's id is one that was handed out, and it holds at most `recent_ids` ids.
abbrev pub Bounded : ℕ → Subscriber → Type 0
Bounded next s = (s.id < next) × (length s.seen ≤ recent_ids)

pub All-append :
    (n : ℕ) (xs : List Subscriber) (y : Subscriber)
    → All (Bounded n) xs
    → Bounded n y
    → All (Bounded n) (xs ++ y ∷ [])
All-append n [] y h k = (k, tt)
All-append n (x ∷ xs) y h k = (h.0, All-append n xs y h.1 k)

pub All-later : (n : ℕ) (xs : List Subscriber) → All (Bounded n) xs → All (Bounded (n + 1)) xs
All-later n [] h = tt
All-later n (x ∷ xs) h = ((omega (arith, h.0.0), h.0.1), All-later n xs h.1)

pub All-retain :
    (n : ℕ) (p : Subscriber → Bool) (xs : List Subscriber)
    → All (Bounded n) xs
    → All (Bounded n) (retain p xs)
All-retain n p [] h = tt
All-retain n p (x ∷ xs) h = elim (Bool-cases (p x)) [
  | inl stays ↦ rw stays (h.0, All-retain n p xs h.1)
  | inr goes ↦ rw goes (All-retain n p xs h.1)
]

pub All-remember :
    (n : ℕ) (id : Text) (ids : List ℕ) (xs : List Subscriber)
    → All (Bounded n) xs
    → All (Bounded n) (remember id ids xs)
unfolding remember
All-remember n id ids [] h = tt
All-remember n id ids (x ∷ xs) h = elim (Bool-cases (any (λ d. d == x.id) ids)) [
  | inl told ↦ rw told ((h.0.0, trim_seen-le (x.seen ++ id ∷ [])), All-remember n id ids xs h.1)
  | inr untold ↦ rw untold (h.0, All-remember n id ids xs h.1)
]

pub All-if :
    (n : ℕ) (b : Bool) (xs ys : List Subscriber)
    → All (Bounded n) xs
    → All (Bounded n) ys
    → All (Bounded n) (if b then xs else ys)
All-if n true xs ys h k = h
All-if n false xs ys h k = k

-- The registry with a collection's list written back, or taken out.
pub listed-insert :
    (c j : Text) (subs : List Subscriber) (m : Dict (List Subscriber))
    → listed (lookup j (insert c subs m)) ≡ (if text_eq c j then subs else listed (lookup j m))
listed-insert c j subs m =
    rw (lookup-insert c j subs m) (elim (Bool-cases (text_eq c j)) [ inl e ↦ rw e | inr e ↦ rw e ])

pub listed-remove :
    (c j : Text) (m : Dict (List Subscriber))
    → listed (lookup j (remove c m)) ≡ (if text_eq c j then [] else listed (lookup j m))
listed-remove c j m =
    rw (lookup-remove c j m) (elim (Bool-cases (text_eq c j)) [ inl e ↦ rw e | inr e ↦ rw e ])

pub listed-written :
    (c j : Text) (subs : List Subscriber) (m : Dict (List Subscriber))
    → listed (lookup j (if null subs then remove c m else insert c subs m))
      ≡ (if text_eq c j then subs else listed (lookup j m))
listed-written c j [] m = listed-remove c j m
listed-written c j (s ∷ subs) m = listed-insert c j (s ∷ subs) m

pub listed-at :
    (c j : Text) (subs : List Subscriber) (m : Dict (List Subscriber))
    → listed (lookup c m) ≡ subs
    → listed (lookup j m) ≡ (if text_eq c j then subs else listed (lookup j m))
listed-at c j subs m h = elim (Bool-cases (text_eq c j)) [
  | inl e ↦ rw (e, ← h) (ap (λ x. listed (lookup x m)) (sym ((text_eq_iff c j).0 e)))
  | inr e ↦ rw e
]
