-- ===== src/Decode/Outside.antt =====
-- A field by itself is decoded as one outside of repeating sets, whatever its type.
use canboat_rs.Prelude.{ℕ, ◌≡◌, refl, List, Option, none, some, Option-cases, inl, inr, ◌>>=◌}
use canboat_rs.Schema.{Floats, FieldInfo, PgnInfo, PgnDatabase, FieldType, first_pgn}
use canboat_rs.Schema as Kind
use canboat_rs.Decode.{DecodedField, DecodeContext, repeat_set_of}
use canboat_rs.Decode.Scalars.{field_of_order}
use canboat_rs.Decode.Field.{Deeper, decode_variable, decode_one_field_at, decode_by_width}

-- The field that is decoded stands outside of sets.
abbrev pub IsOutside : {N : Type 0} {A : Type 0} → (A → DecodedField N) → Option A → Type 0
IsOutside field none = Unit
IsOutside field (some a) = repeat_set_of (field a) ≡ 0

bind-IsOutside :
    {N A B : Type 0} (field : B → DecodedField N) (o : Option A) (g : A → Option B)
    → ((a : A) → IsOutside field (g a))
    → IsOutside field (o >>= g)
bind-IsOutside field none g h = tt
bind-IsOutside field (some a) g h = h a

bind-IsOutside_kept :
    {N A B : Type 0} (one : A → DecodedField N) (two : B → DecodedField N) (o : Option A)
    (g : A → Option B)
    → IsOutside one o
    → ((a : A) → repeat_set_of (one a) ≡ 0 → IsOutside two (g a))
    → IsOutside two (o >>= g)
bind-IsOutside_kept one two none g h k = tt
bind-IsOutside_kept one two (some a) g h k = k a h

module _ (fl : Floats) (deeper : Deeper fl.Num) (info : PgnInfo fl.Num) (bytes : List ℕ)
    (db : PgnDatabase fl.Num) where
  decode_variable-IsOutside :
      (f : FieldInfo fl.Num) (at : ℕ) (ctx : DecodeContext fl.Num)
      → IsOutside (λ out. out.0) (decode_variable fl deeper f bytes db at ctx)
  unfolding decode_variable
  decode_variable-IsOutside f at ctx =
      bind-IsOutside (λ out. out.0) ctx.target_pgn _
        (λ pgn.
          bind-IsOutside (λ out. out.0) ctx.current_param_idx _
            (λ place.
              bind-IsOutside (λ out. out.0) (first_pgn db pgn) _
                (λ target_info.
                  bind-IsOutside (λ out. out.0) (field_of_order place target_info.fields) _
                    (λ target.
                      bind-IsOutside (λ out. out.0)
                        (deeper.target_field target target_info bytes at) _ (λ sub. refl)))))

  typed-IsOutside :
      (f : FieldInfo fl.Num) (at : ℕ) (ctx : DecodeContext fl.Num) (t : Option FieldType)
      → f.field_type ≡ t
      → IsOutside (λ out. out.0) (decode_one_field_at fl deeper f info bytes db at ctx)
  unfolding decode_one_field_at decode_by_width
  typed-IsOutside f at ctx (some Kind.number) is =
      rw is (bind-IsOutside (λ out. out.0) f.bit_length _ (λ len. refl))
  typed-IsOutside f at ctx (some Kind.decimal) is =
      rw is (bind-IsOutside (λ out. out.0) f.bit_length _ (λ len. refl))
  typed-IsOutside f at ctx (some Kind.float) is =
      rw is (bind-IsOutside (λ out. out.0) f.bit_length _ (λ len. refl))
  typed-IsOutside f at ctx (some Kind.lookup) is =
      rw is (bind-IsOutside (λ out. out.0) f.bit_length _ (λ len. refl))
  typed-IsOutside f at ctx (some Kind.bit_lookup) is =
      rw is (bind-IsOutside (λ out. out.0) f.bit_length _ (λ len. refl))
  typed-IsOutside f at ctx (some Kind.indirect_lookup) is =
      rw is (bind-IsOutside (λ out. out.0) f.bit_length _ (λ len. refl))
  typed-IsOutside f at ctx (some Kind.date) is =
      rw is (bind-IsOutside (λ out. out.0) f.bit_length _ (λ len. refl))
  typed-IsOutside f at ctx (some Kind.time) is =
      rw is (bind-IsOutside (λ out. out.0) f.bit_length _ (λ len. refl))
  typed-IsOutside f at ctx (some Kind.duration) is =
      rw is (bind-IsOutside (λ out. out.0) f.bit_length _ (λ len. refl))
  typed-IsOutside f at ctx (some Kind.string_fix) is =
      rw is (bind-IsOutside (λ out. out.0) f.bit_length _ (λ len. refl))
  typed-IsOutside f at ctx (some Kind.mmsi) is =
      rw is (bind-IsOutside (λ out. out.0) f.bit_length _ (λ len. refl))
  typed-IsOutside f at ctx (some Kind.pgn_number) is =
      rw is (bind-IsOutside (λ out. out.0) f.bit_length _ (λ len. refl))
  typed-IsOutside f at ctx (some Kind.iso_name) is =
      rw is (bind-IsOutside (λ out. out.0) f.bit_length _ (λ len. refl))
  typed-IsOutside f at ctx (some Kind.reserved) is =
      rw is (bind-IsOutside (λ out. out.0) f.bit_length _ (λ len. refl))
  typed-IsOutside f at ctx (some Kind.spare) is =
      rw is (bind-IsOutside (λ out. out.0) f.bit_length _ (λ len. refl))
  typed-IsOutside f at ctx (some Kind.dynamic_field_key) is =
      rw is (bind-IsOutside (λ out. out.0) f.bit_length _ (λ len. refl))
  typed-IsOutside f at ctx (some Kind.dynamic_field_length) is =
      rw is (bind-IsOutside (λ out. out.0) f.bit_length _ (λ len. refl))
  typed-IsOutside f at ctx (some Kind.field_index) is =
      rw is (bind-IsOutside (λ out. out.0) f.bit_length _ (λ len. refl))
  typed-IsOutside f at ctx none is =
      rw is (bind-IsOutside (λ out. out.0) f.bit_length _ (λ len. refl))
  typed-IsOutside f at ctx (some Kind.string_lau) is = rw is refl
  typed-IsOutside f at ctx (some Kind.dynamic_field_value) is = rw is refl
  typed-IsOutside f at ctx (some Kind.variable) is = rw is (
      bind-IsOutside_kept (λ out. out.0) (λ out. out.0) _ _ (decode_variable-IsOutside _ at ctx)
        (λ out outside. outside))
  typed-IsOutside f at ctx (some Kind.string_lz) is = elim (Option-cases f.bit_length) [
    | inl e ↦ rw (is, e) refl
    | inr (len, e) ↦ rw (is, e) (bind-IsOutside (λ out. out.0) f.bit_length _ (λ len. refl))
  ]
  typed-IsOutside f at ctx (some Kind.binary) is = elim (Option-cases f.bit_length) [
    | inl e ↦ rw (is, e) refl
    | inr (len, e) ↦ rw (is, e) (bind-IsOutside (λ out. out.0) f.bit_length _ (λ len. refl))
  ]

  pub decode_one_field_at-IsOutside :
      (f : FieldInfo fl.Num) (at : ℕ) (ctx : DecodeContext fl.Num)
      → IsOutside (λ out. out.0) (decode_one_field_at fl deeper f info bytes db at ctx)
  decode_one_field_at-IsOutside f at ctx = typed-IsOutside f at ctx f.field_type refl
