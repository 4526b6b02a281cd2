-- ===== src/Prelude/Lists.antt =====
-- Lists measured and indexed by native numbers, under the library's names.
use Prim.Native.Nat.{ℕ, zero, suc, ◌+◌, ◌-◌, ◌≤◌, ◌<◌, min}
use mathlib.Core.Path.{◌≡◌, refl, ap, ap₂}
use mathlib.Core.Logic.{◌≢◌, ◌⊎◌}
use mathlib.Core.List.{List, [], ◌∷◌, ◌++◌, map}
use mathlib.Core.Option.{Option, none, some}
use native.Mathlib.Omega.{arith}

module _ {ℓ} {A : Type ℓ} where
  abbrev pub length : List A → ℕ
  length [] = 0
  length (x ∷ xs) = suc (length xs)

  abbrev pub get_elem? : List A → ℕ → Option A
  get_elem? [] i = none
  get_elem? (x ∷ xs) zero = some x
  get_elem? (x ∷ xs) (suc i) = get_elem? xs i

  -- A write out of bounds changes nothing.
  abbrev pub set : List A → ℕ → A → List A
  set [] i v = []
  set (x ∷ xs) zero v = v ∷ xs
  set (x ∷ xs) (suc i) v = x ∷ set xs i v

  pub length-append : (xs ys : List A) → length (xs ++ ys) ≡ length xs + length ys
  length-append [] ys = omega arith
  length-append (x ∷ xs) ys = omega (arith, length-append xs ys)

module _ {ℓ} {A : Type ℓ} where
  pub length-set : (xs : List A) (i : ℕ) (v : A) → length (set xs i v) ≡ length xs
  length-set [] i v = refl
  length-set (x ∷ xs) zero v = refl
  length-set (x ∷ xs) (suc i) v = ap suc (length-set xs i v)

  pub get_elem?-set_self :
      (xs : List A) (i : ℕ) (v : A) → i < length xs → get_elem? (set xs i v) i ≡ some v
  get_elem?-set_self [] i v h = elim h [ ]
  get_elem?-set_self (x ∷ xs) zero v h = refl
  get_elem?-set_self (x ∷ xs) (suc i) v h = get_elem?-set_self xs i v (omega arith)

  pub get_elem?-set_ne :
      (xs : List A) {i j : ℕ} (v : A) → i ≢ j → get_elem? (set xs i v) j ≡ get_elem? xs j
  get_elem?-set_ne [] v h = refl
  get_elem?-set_ne (x ∷ xs) {i = zero} {j = zero} v h = absurd (h refl)
  get_elem?-set_ne (x ∷ xs) {i = zero} {j = suc j} v h = refl
  get_elem?-set_ne (x ∷ xs) {i = suc i} {j = zero} v h = refl
  get_elem?-set_ne (x ∷ xs) {i = suc i} {j = suc j} v h = get_elem?-set_ne xs v (λ e. h (ap suc e))

module _ {ℓ} {A : Type ℓ} where
  abbrev pub get_or : List A → ℕ → A → A
  get_or [] i d = d
  get_or (x ∷ xs) zero d = x
  get_or (x ∷ xs) (suc i) d = get_or xs i d

  abbrev pub take : ℕ → List A → List A
  take zero xs = []
  take (suc n) [] = []
  take (suc n) (x ∷ xs) = x ∷ take n xs

  abbrev pub drop : ℕ → List A → List A
  drop zero xs = xs
  drop (suc n) [] = []
  drop (suc n) (x ∷ xs) = drop n xs

  abbrev pub replicate : ℕ → A → List A
  replicate zero a = []
  replicate (suc n) a = a ∷ replicate n a

  pub take-append-drop : (n : ℕ) (xs : List A) → take n xs ++ drop n xs ≡ xs
  take-append-drop zero xs = refl
  take-append-drop (suc n) [] = refl
  take-append-drop (suc n) (x ∷ xs) = rw (take-append-drop n xs)

  pub length-take : (n : ℕ) (xs : List A) → length (take n xs) ≡ min n (length xs)
  length-take zero xs = omega arith
  length-take (suc n) [] = omega arith
  length-take (suc n) (x ∷ xs) = omega (arith, length-take n xs)

  pub length-drop : (n : ℕ) (xs : List A) → length (drop n xs) ≡ length xs - n
  length-drop zero xs = omega arith
  length-drop (suc n) [] = omega arith
  length-drop (suc n) (x ∷ xs) = omega (arith, length-drop n xs)

  pub length-replicate : (n : ℕ) (a : A) → length (replicate n a) ≡ n
  length-replicate zero a = refl
  length-replicate (suc n) a = ap suc (length-replicate n a)

  pub length-map {κ} : {B : Type κ} (xs : List A) (f : A → B) → length (map f xs) ≡ length xs
  length-map [] f = refl
  length-map (x ∷ xs) f = ap suc (length-map xs f)

  -- `xs[off..off + ys.len()]` overwritten by `ys`. A write past the end, at which the
  -- source panics, makes the list longer here, so that a theorem on its length excludes it.
  abbrev pub write_at : List A → ℕ → List A → List A
  write_at [] off ys = ys
  write_at (x ∷ xs) (suc off) ys = x ∷ write_at xs off ys
  write_at (x ∷ xs) zero [] = x ∷ xs
  write_at (x ∷ xs) zero (y ∷ ys) = y ∷ write_at xs zero ys

module _ {ℓ} {A : Type ℓ} where
  pub length-write_at :
      (xs ys : List A) (off : ℕ)
      → length ys ≤ length xs - off
      → length (write_at xs off ys) ≡ length xs
  length-write_at [] ys off h = omega arith
  length-write_at (x ∷ xs) ys (suc off) h = ap suc (length-write_at xs ys off (omega arith))
  length-write_at (x ∷ xs) [] zero h = refl
  length-write_at (x ∷ xs) (y ∷ ys) zero h = ap suc (length-write_at xs ys zero (omega arith))

  pub get_or-write_at_inside :
      (xs ys : List A) (off j : ℕ) (d : A)
      → off ≤ j
      → j < off + length ys
      → j < length xs
      → get_or (write_at xs off ys) j d ≡ get_or ys (j - off) d
  get_or-write_at_inside [] ys off j d lo hi h = absurd (omega arith)
  get_or-write_at_inside (x ∷ xs) ys (suc off) zero d lo hi h = absurd (omega arith)
  get_or-write_at_inside (x ∷ xs) ys (suc off) (suc j) d lo hi h =
      let same : suc j - suc off ≡ j - off = omega arith in
      rw same (get_or-write_at_inside xs ys off j d (omega arith) (omega arith) (omega arith))
  get_or-write_at_inside (x ∷ xs) [] zero j d lo hi h = absurd (omega arith)
  get_or-write_at_inside (x ∷ xs) (y ∷ ys) zero zero d lo hi h = refl
  get_or-write_at_inside (x ∷ xs) (y ∷ ys) zero (suc j) d lo hi h =
      let same : suc j - 0 ≡ suc (j - 0) = omega arith in
      rw same (get_or-write_at_inside xs ys zero j d (omega arith) (omega arith) (omega arith))

  pub get_or-write_at_outside :
      (xs ys : List A) (off j : ℕ) (d : A)
      → length ys ≤ length xs - off
      → (j < off) ⊎ (off + length ys ≤ j)
      → get_or (write_at xs off ys) j d ≡ get_or xs j d
  get_or-write_at_outside [] [] off j d r h = refl
  get_or-write_at_outside [] (y ∷ ys) off j d r h = absurd (omega arith)
  get_or-write_at_outside (x ∷ xs) ys (suc off) zero d r h = refl
  get_or-write_at_outside (x ∷ xs) ys (suc off) (suc j) d r h =
      get_or-write_at_outside xs ys off j d (omega arith) (omega arith)
  get_or-write_at_outside (x ∷ xs) [] zero j d r h = refl
  get_or-write_at_outside (x ∷ xs) (y ∷ ys) zero zero d r h = absurd (omega arith)
  get_or-write_at_outside (x ∷ xs) (y ∷ ys) zero (suc j) d r h =
      get_or-write_at_outside xs ys zero j d (omega arith) (omega arith)

  pub get_or-take : (n j : ℕ) (xs : List A) (d : A) → j < n → get_or (take n xs) j d ≡ get_or xs j d
  get_or-take zero j xs d h = elim h [ ]
  get_or-take (suc n) j [] d h = refl
  get_or-take (suc n) zero (x ∷ xs) d h = refl
  get_or-take (suc n) (suc j) (x ∷ xs) d h = get_or-take n j xs d (omega arith)

  pub get_or-drop : (n j : ℕ) (xs : List A) (d : A) → get_or (drop n xs) j d ≡ get_or xs (n + j) d
  get_or-drop zero j xs d = ap (λ (t : ℕ). get_or xs t d) (omega arith)
  get_or-drop (suc n) j [] d = refl
  get_or-drop (suc n) j (x ∷ xs) d =
      let next : suc n + j ≡ suc (n + j) = omega arith in rw next (get_or-drop n j xs d)

  pub get_elem?-replicate : (n k : ℕ) (a : A) → k < n → get_elem? (replicate n a) k ≡ some a
  get_elem?-replicate zero k a h = elim h [ ]
  get_elem?-replicate (suc n) zero a h = refl
  get_elem?-replicate (suc n) (suc k) a h = get_elem?-replicate n k a (omega arith)

  pub get_or-replicate : (n j : ℕ) (a d : A) → j < n → get_or (replicate n a) j d ≡ a
  get_or-replicate zero j a d h = elim h [ ]
  get_or-replicate (suc n) zero a d h = refl
  get_or-replicate (suc n) (suc j) a d h = get_or-replicate n j a d (omega arith)

  pub get_or_ext :
      (d : A) (xs ys : List A)
      → length xs ≡ length ys
      → ((i : ℕ) → i < length ys → get_or xs i d ≡ get_or ys i d)
      → xs ≡ ys
  get_or_ext d [] [] e h = refl
  get_or_ext d [] (y ∷ ys) e h = absurd (omega arith)
  get_or_ext d (x ∷ xs) [] e h = absurd (omega arith)
  get_or_ext d (x ∷ xs) (y ∷ ys) e h =
      ap₂ ◌∷◌ (h 0 (omega arith))
        (get_or_ext d xs ys (omega arith) (λ i hi. h (suc i) (omega arith)))

  pub get_or-set_self :
      (xs : List A) (i : ℕ) (v d : A) → i < length xs → get_or (set xs i v) i d ≡ v
  get_or-set_self [] i v d h = elim h [ ]
  get_or-set_self (x ∷ xs) zero v d h = refl
  get_or-set_self (x ∷ xs) (suc i) v d h = get_or-set_self xs i v d (omega arith)

  pub get_or-set_ne :
      (xs : List A) (i j : ℕ) (v d : A) → i ≢ j → get_or (set xs i v) j d ≡ get_or xs j d
  get_or-set_ne [] i j v d h = refl
  get_or-set_ne (x ∷ xs) zero zero v d h = absurd (h refl)
  get_or-set_ne (x ∷ xs) zero (suc j) v d h = refl
  get_or-set_ne (x ∷ xs) (suc i) zero v d h = refl
  get_or-set_ne (x ∷ xs) (suc i) (suc j) v d h = get_or-set_ne xs i j v d (λ e. h (ap suc e))
