-- ===== src/Responder/Product.antt =====
-- `ProductInfo::frame` of crates/canboat-io/src/nmea_responder.rs: product information, packed by the
-- schema encoder over the generated database, with the generated constants of its eight fields.
use canboat_rs.Prelude.{
  ℕ, ◌≡◌, refl, sym, ap, ◌∙◌, arith, [], ◌∷◌, Option, none, some, inl, inr, ◌==◌, length, set,
  get_elem?, Bool-cases, Option-cases,
}
use canboat_rs.Frame.{RawFrame, Text}
use canboat_rs.Int.{pos}
use canboat_rs.Schema.{Floats, FieldInfo, PgnDatabase}
use canboat_rs.Encode.{EncodeValue, int, text, Result, ◌>>>=◌, Staged, stage_value}
use canboat_rs.Encode.Build.{
  PgnBuilder, encode, source, push, push_at, build, flushed, write_fields,
}
use canboat_rs.Responder.{ProductInfo}

-- The generated constants of the module `field::product_information`.
pub record ProductFields (N : Type 0) : Type 0 where
  pub nmea2000_version : FieldInfo N
  pub product_code : FieldInfo N
  pub model_id : FieldInfo N
  pub software_version_code : FieldInfo N
  pub model_version : FieldInfo N
  pub model_serial_code : FieldInfo N
  pub certification_level : FieldInfo N
  pub load_equivalency : FieldInfo N

-- `"productInformation"`.
abbrev product_information : Text
product_information =
    112 ∷ 114 ∷ 111 ∷ 100 ∷ 117 ∷ 99 ∷ 116 ∷ 73 ∷ 110 ∷ 102 ∷ 111 ∷ 114 ∷ 109 ∷ 97 ∷ 116 ∷ 105 ∷ 111
    ∷ 110 ∷ []

-- `ok()`.
abbrev ok : {N A : Type 0} → Result N A → Option A
ok (inl e) = none
ok (inr a) = some a

module _ (fl : Floats) (db : PgnDatabase fl.Num) (pi : ProductFields fl.Num) where
  -- The eight values, in the order of the source.
  unfoldable pub push_product : PgnBuilder fl.Num → ProductInfo → Result fl.Num (PgnBuilder fl.Num)
  push_product b p =
      push fl db b pi.nmea2000_version (int (pos p.db_version))
      >>>= (λ b. push fl db b pi.product_code (int (pos p.product_code)))
      >>>= (λ b. push fl db b pi.model_id (text p.model_id))
      >>>= (λ b. push fl db b pi.software_version_code (text p.software_version))
      >>>= (λ b. push fl db b pi.model_version (text p.model_version))
      >>>= (λ b. push fl db b pi.model_serial_code (text p.model_serial))
      >>>= (λ b. push fl db b pi.certification_level (int (pos p.certification_level)))
      >>>= (λ b. push fl db b pi.load_equivalency (int (pos p.load_equivalency)))

  unfoldable pub product_frame : ProductInfo → ℕ → Option RawFrame
  product_frame p src =
      ok (encode db product_information >>>= (λ b. push_product (source b src) p) >>>= build)

-- Where a builder or a frame comes from is kept from step to step.
abbrev Given : {N A : Type 0} → (A → Type 0) → Result N A → Type 0
Given P (inl e) = Unit
Given P (inr a) = P a

Given-bind :
    {N A B : Type 0} (P : A → Type 0) (Q : B → Type 0) (r : Result N A) (g : A → Result N B)
    → Given P r
    → ((a : A) → P a → Given Q (g a))
    → Given Q (r >>>= g)
Given-bind P Q (inl e) g h k = tt
Given-bind P Q (inr a) g h k = k a h

Given-any : {N A : Type 0} (r : Result N A) → Given (λ _. Unit) r
Given-any (inl e) = tt
Given-any (inr a) = tt

module _ (fl : Floats) (db : PgnDatabase fl.Num) (pi : ProductFields fl.Num) (src : ℕ) where
  abbrev Named : PgnBuilder fl.Num → Type 0
  Named b = b.src ≡ src

  push_at-Named :
      (b : PgnBuilder fl.Num) (id : Text) (place : ℕ) (v : EncodeValue fl.Num)
      → Named b
      → Given Named (push_at fl db b id place v)
  unfolding push_at
  push_at-Named b id place v h = elim (Option-cases (get_elem? b.pgn.fields place)) [
    | inl e ↦ rw (e, Given) tt
    | inr (f, e) ↦
        rw (e, Given)
          (Given-bind (λ _. Unit) Named (stage_value fl db f v)
            (λ (s : Staged). inr (record b { staged = set b.staged place (some s) }))
            (Given-any (stage_value fl db f v)) (λ s _. h))
  ]

  push-Named :
      (field : FieldInfo fl.Num) (v : EncodeValue fl.Num) (b : PgnBuilder fl.Num)
      → Named b
      → Given Named (push fl db b field v)
  unfolding push
  push-Named field v b h = elim (Bool-cases (field.order == 0)) [
    | inl e ↦ rw e tt
    | inr e ↦ rw e (push_at-Named b field.id _ v h)
  ]

  then_push :
      (r : Result fl.Num (PgnBuilder fl.Num)) (field : FieldInfo fl.Num) (v : EncodeValue fl.Num)
      → Given Named r
      → Given Named (r >>>= λ b. push fl db b field v)
  then_push r field v h = Given-bind Named Named r _ h (λ b. push-Named field v b)

  push_product-Named :
      (b : PgnBuilder fl.Num) (p : ProductInfo) → Named b → Given Named (push_product fl db pi b p)
  unfolding push_product
  push_product-Named b p h = then_push _ pi.load_equivalency _ (
      then_push _ pi.certification_level _ (
        then_push _ pi.model_serial_code _ (
          then_push _ pi.model_version _ (
            then_push _ pi.software_version_code _ (
              then_push _ pi.model_id _
                (then_push _ pi.product_code _ (push-Named pi.nmea2000_version _ b h)))))))

  build-Named : (b : PgnBuilder fl.Num) → Named b → Given (λ (f : RawFrame). f.src ≡ src) (build b)
  unfolding build
  build-Named b h =
      Given-bind (λ _. Unit) (λ (f : RawFrame). f.src ≡ src)
        (write_fields ([], 0) b.pgn.fields b.staged) _
        (Given-any (write_fields ([], 0) b.pgn.fields b.staged))
        (λ to _. elim (Option-cases b.pgn.length) [
          | inl e ↦ rw e h
          | inr (n, e) ↦ rw e (elim (Bool-cases (length (flushed to) == n)) [
            | inl same ↦ rw same h
            | inr other ↦ rw other tt
          ])
        ])

  -- Product information comes from the address that it is asked to be sent from.
  pub product_frame-src :
      (p : ProductInfo) (f : RawFrame) → product_frame fl db pi p src ≡ some f → f.src ≡ src
  unfolding product_frame
  product_frame-src p f e = out _ made e
    where
      no_frame : (o : Option RawFrame) → o ≡ none → o ≡ some f → ⊥
      no_frame o p q = ground arith

      made :
          Given
            (λ (g : RawFrame). g.src ≡ src)
            (encode db product_information
              >>>= (λ b. push_product fl db pi (source b src) p)
              >>>= build)
      made =
          Given-bind Named (λ (g : RawFrame). g.src ≡ src) _ build
            (Given-bind (λ _. Unit) Named (encode db product_information) _
              (Given-any (encode db product_information))
              (λ b _. push_product-Named (source b src) p refl))
            build-Named

      out :
          (r : Result fl.Num RawFrame)
          → Given (λ (g : RawFrame). g.src ≡ src) r
          → ok r ≡ some f
          → f.src ≡ src
      out (inl e) h same = absurd (no_frame none refl same)
      out (inr g) h same =
          sym (ap (λ (o : Option RawFrame). elim o [ none ↦ src | some x ↦ x.src ]) same) ∙ h
