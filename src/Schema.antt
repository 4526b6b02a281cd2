-- ===== src/Schema.antt =====
-- crates/canboat-schema/src/lib.rs: the types of the PGN tables, with those of their entries that the
-- decoder and the encoder read, and how crates/canboat-core/src/db.rs looks things up in them. The
-- tables themselves are generated by the build, and so an argument. What the library does with 64-bit
-- floating point numbers is in `Floats`; `N` is their type. A search in a sorted table is the search
-- for its first entry with the key.
use canboat_rs.Prelude.{
  ℕ, List, [], ◌∷◌, Option, none, some, Bool, ◌==◌, ◌&&◌, if◌then◌else◌, get_elem?, ◌>>=◌,
}
use canboat_rs.Frame.{Text}
use canboat_rs.Int.{ℤ}
use canboat_rs.Utf8.{text_eq}

-- `f64`, with what the program does with it: the casts from `i64`, to `i64` and to `u32`, and the
-- conversions between an `f64`, an `i64` and the 32 bits of an `f32`.
pub record Floats : Type 1 where
  pub Num : Type 0
  pub zero_num : Num
  pub one_num : Num
  pub of_int : ℤ → Num
  pub add : Num → Num → Num
  pub sub : Num → Num → Num
  pub mul : Num → Num → Num
  pub div : Num → Num → Num
  pub round : Num → Num
  pub is_finite : Num → Bool
  pub equal : Num → Num → Bool
  pub at_least : Num → Num → Bool
  pub to_int : Num → ℤ
  pub to_u32 : Num → ℕ
  pub from_bits : ℕ → Num
  pub to_bits : Num → ℕ
  pub int_to_bits : ℤ → ℕ

pub data PacketType : Type 0 where
  single fast iso mixed : PacketType

pub data FieldType : Type 0 where
  number decimal float binary lookup bit_lookup indirect_lookup date time duration : FieldType
  string_fix string_lz string_lau variable mmsi pgn_number iso_name reserved spare : FieldType
  dynamic_field_key dynamic_field_length dynamic_field_value field_index : FieldType

pub record FieldInfo (N : Type 0) : Type 0 where
  pub order : ℕ
  pub id : Text
  pub name : Text
  pub bit_length : Option ℕ
  pub bit_offset : Option ℕ
  pub resolution : Option N
  pub signed : Option Bool
  pub offset : Option ℤ
  pub unknown_value : Option ℕ
  pub out_of_range_value : Option ℕ
  pub reserved_value : Option ℕ
  pub unit : Option Text
  pub physical_quantity : Option Text
  pub field_type : Option FieldType
  pub lookup_enumeration : Option Text
  pub lookup_bit_enumeration : Option Text
  pub lookup_indirect_enumeration : Option Text
  pub lookup_indirect_enumeration_field_order : Option ℕ
  pub lookup_field_type_enumeration : Option Text
  pub match_value : Option ℤ
  pub condition : Option Text
  pub unit_offset : N
  pub precision : ℕ
  pub is_dynamic_length_marker : Bool

pub record PgnInfo (N : Type 0) : Type 0 where
  pub pgn : ℕ
  pub id : Text
  pub description : Text
  pub packet_type : PacketType
  pub priority : Option ℕ
  pub length : Option ℕ
  pub fields : List (FieldInfo N)
  pub repeating_field_set1_size : Option ℕ
  pub repeating_field_set1_start_field : Option ℕ
  pub repeating_field_set1_count_field : Option ℕ
  pub repeating_field_set2_size : Option ℕ
  pub repeating_field_set2_start_field : Option ℕ
  pub repeating_field_set2_count_field : Option ℕ
  pub id_is_pinned : Bool

pub record LookupValue : Type 0 where
  pub value : ℕ
  pub name : Text
  pub id : Option Text

pub record BitLookupValue : Type 0 where
  pub bit_number : ℕ
  pub name : Text

pub record IndirectLookupValue : Type 0 where
  pub value1 : ℕ
  pub value2 : ℕ
  pub name : Text

pub record LookupFieldTypeValue (N : Type 0) : Type 0 where
  pub value : ℕ
  pub name : Text
  pub field_type : Option Text
  pub bits : Option ℕ
  pub resolution : Option N
  pub unit : Option Text
  pub lookup_enumeration : Option Text
  pub signed : Bool
  pub precision : ℕ

-- A named table: its values as they are declared, and their places by key.
pub record Table (K V : Type 0) : Type 0 where
  pub name : Text
  pub values : List V
  pub by_key : List (K × ℕ)

-- `binary_search_by_key` with the place that it finds.
unfoldable pub find_key : {K : Type 0} → (K → K → Bool) → K → List (K × ℕ) → Option ℕ
find_key same key [] = none
find_key same key ((k, i) ∷ rest) =
    let later = find_key same key rest in if same k key then some i else later

unfoldable pub table_get : {K V : Type 0} → (K → K → Bool) → Table K V → K → Option V
table_get same t key = find_key same key t.by_key >>= λ i. get_elem? t.values i

unfoldable pub find_table : {K V : Type 0} → Text → List (Table K V) → Option (Table K V)
find_table name [] = none
find_table name (t ∷ ts) =
    let later = find_table name ts in if text_eq t.name name then some t else later

-- The generated functions are `dispatch`, from a PGN and its payload to the place of the matching
-- definition, and `find_catchall`.
pub record PgnDatabase (N : Type 0) : Type 0 where
  pub pgns : List (PgnInfo N)
  pub pgn_index : List (ℕ × List ℕ)
  pub lookups : List (Table ℕ LookupValue)
  pub bit_lookups : List (Table ℕ BitLookupValue)
  pub indirect_lookups : List (Table (ℕ × ℕ) IndirectLookupValue)
  pub field_type_lookups : List (Table ℕ (LookupFieldTypeValue N))
  pub dispatch : ℕ → List ℕ → Option ℕ
  pub find_catchall : ℕ → Option ℕ

-- The entries of an index that there are.
unfoldable pub places : {A : Type 0} → List A → List ℕ → List A
places xs [] = []
places xs (i ∷ is) =
    let rest = places xs is in elim (get_elem? xs i) [ none ↦ rest | some a ↦ a ∷ rest ]

unfoldable pub index_of : ℕ → List (ℕ × List ℕ) → List ℕ
index_of pgn [] = []
index_of pgn ((p, is) ∷ rest) = let later = index_of pgn rest in if p == pgn then is else later

module _ {N : Type 0} where
  unfoldable pub pgn_variants : PgnDatabase N → ℕ → List (PgnInfo N)
  pgn_variants db pgn = places db.pgns (index_of pgn db.pgn_index)

  unfoldable pub first_pgn : PgnDatabase N → ℕ → Option (PgnInfo N)
  first_pgn db pgn = elim (index_of pgn db.pgn_index) [ [] ↦ none | i ∷ is ↦ get_elem? db.pgns i ]

  -- `lookup(name)` and `get(value)`.
  unfoldable pub lookup_name : PgnDatabase N → Text → ℕ → Option Text
  lookup_name db name value =
      find_table name db.lookups >>= λ t. table_get ◌==◌ t value >>= λ v. some v.name

  unfoldable pub bit_lookup_values : PgnDatabase N → Text → List BitLookupValue
  bit_lookup_values db name = elim (find_table name db.bit_lookups) [
    | none ↦ []
    | some t ↦ t.values
  ]

  unfoldable pub indirect_lookup_name : PgnDatabase N → Text → ℕ → ℕ → Option Text
  indirect_lookup_name db name value1 value2 = find_table name db.indirect_lookups >>= λ t.
      table_get (λ (a b : ℕ × ℕ). (a.0 == b.0) && (a.1 == b.1)) t (value1, value2) >>= λ v.
      some v.name

  unfoldable pub field_type_lookup : PgnDatabase N → Text → ℕ → Option (LookupFieldTypeValue N)
  field_type_lookup db name key =
      find_table name db.field_type_lookups >>= λ t. table_get ◌==◌ t key
