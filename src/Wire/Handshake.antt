-- ===== src/Wire/Handshake.antt =====
-- Whom a program accepts.
use canboat_rs.Prelude.{ℕ, ◌≡◌, ◌↔◌, refl, ap, ◌∙◌, sym, List, [], ◌∷◌, none, true, arith}
use mathlib.Core.Bool.{true≢false}
use canboat_rs.Wire.{
  Hello, Build, Units, metric, si, for_units, producer_units, verify, is_same, magic_cbw1,
  wire_version, units_code,
}

is_same_sound : (xs ys : List ℕ) → is_same xs ys ≡ true → xs ≡ ys
is_same_sound [] [] h = refl
is_same_sound [] (y ∷ ys) h = absurd (true≢false (sym h))
is_same_sound (x ∷ xs) [] h = absurd (true≢false (sym h))
is_same_sound (x ∷ xs) (y ∷ ys) h =
    let both : (x ≡ y) × (is_same xs ys ≡ true) = ground arith in
    λ i. both.0 i ∷ is_same_sound xs ys both.1 i

-- The greeting of the same build in the units that the peer declares; its version texts are for
-- people.
abbrev pub own : Build → Hello → Hello
own b h = record (for_units b (producer_units h)) {
  schema_version = h.schema_version;
  canboat_version = h.canboat_version;
}

accepted :
    (b : Build) (h : Hello)
    → verify b h ≡ none
    → (is_same h.magic magic_cbw1 ≡ true)
      × (h.version ≡ wire_version)
      × (h.schema_hash ≡ b.schema_hash)
      × (h.units ≡ units_code (producer_units h))
unfolding verify
accepted b h e = (ground arith, ground arith, ground arith, ground arith)

refused_none :
    (b : Build) (h : Hello) (u : Units)
    → verify b (record (for_units b u) {
      schema_version = h.schema_version;
      canboat_version = h.canboat_version;
    })
      ≡ none
unfolding verify
refused_none b h metric = ground arith
refused_none b h si = ground arith

-- A greeting is accepted exactly if it is, but for the two version texts, the one that this build
-- sends in the units that the peer declares.
pub verify-none : (b : Build) (h : Hello) → (verify b h ≡ none) ↔ (h ≡ own b h)
verify-none b h = (
  λ e.
      let all = accepted b h e in
      λ i. record {
        magic = is_same_sound h.magic magic_cbw1 all.0 i;
        version = all.1 i;
        schema_hash = all.2 i;
        schema_version = h.schema_version;
        canboat_version = h.canboat_version;
        units = all.3 i;
      },
  λ e. ap (verify b) e ∙ refused_none b h (producer_units h),
)
