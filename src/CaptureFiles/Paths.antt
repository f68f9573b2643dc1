-- ===== src/CaptureFiles/Paths.antt =====
-- The names of capture files in capture-agent/src/ring.rs. A path is its text; names are valid text.
pub mod Distinct
use Prim.Native.String.{String}
use network_monitor.Base.{
  same_bytes, same_bytes_iff, ℕ, zero, suc, ◌+◌, ◌-◌, ◌*◌, ◌/◌, ◌%◌, ◌^◌, ◌≤◌, ◌<◌, min, max, ◌≡◌,
  refl, sym, ap, ◌∙◌, subst, ◌≢◌, ◌↔◌, ◌⊎◌, inl, inr, Bool, true, false, not, ◌&&◌, ◌||◌, Option,
  none, some, List, [], ◌∷◌, ◌++◌, map, arith, ltb, leb, ◌==◌, if◌then◌else◌, is_some, ltb→lt,
  lt→ltb, le→ltb, leb→le, le→leb, gt→leb, ==_iff, tests, Bool-cases, Option-cases, length,
  get_or-drop, get_elem?, get_or, set, take, drop, replicate, resize, length-append, length-set,
  length-take, length-drop, length-replicate, length-resize, take-append-drop, get_or-resize,
  get_or-set_self, get_or-set_ne, get_or_beyond, get_or-take, get_or_ext, get_or-append,
  get_or-append_right, drop-append, take-append, append_assoc, append_nil, u32_mod, u64_max,
  wrapping_add32, wrapping_sub32, saturating_add, add64, Eq, string_eq, beq_refl, Table, measure_of,
  lookup, contains_key, insert, remove, total, AllValues, total-remove, total-insert, length-remove,
  length-insert, lookup-AllValues, remove-AllValues, insert-AllValues, lookup-insert,
  lookup-remove_ne, remove-insert_fresh, remove-insert_ne, remove-remove_ne,
}

-- The requests of wire.rs.
pub record RingConfig : Type 0 where
  pub mode : String
  pub threshold : ℕ

pub record AutostopConfig : Type 0 where
  pub mode : String
  pub threshold : ℕ

-- A path that was asked for: what stands before its file name, with the separator, and the name.
pub record BasePath : Type 0 where
  pub directory : List ℕ
  pub file_name : List ℕ

-- A name before its last dot and behind it, if it has a dot.
unfoldable pub at_last_dot : List ℕ → Option (List ℕ × List ℕ)
at_last_dot [] = none
at_last_dot (c ∷ cs) = elim (at_last_dot cs) [
  | some (before, behind) ↦ some (c ∷ before, behind)
  | none ↦ if c == 46 then some ([], cs) else none
]

-- `Path::file_stem` and `Path::extension`: a dot in front starts no extension.
abbrev stem_of : List ℕ → Option (List ℕ × List ℕ) → List ℕ
stem_of name none = name
stem_of name (some ([], behind)) = name
stem_of name (some (c ∷ before, behind)) = c ∷ before

abbrev extension_of : Option (List ℕ × List ℕ) → List ℕ
extension_of none = []
extension_of (some ([], behind)) = []
extension_of (some (c ∷ before, behind)) = behind

unfoldable pub file_stem : List ℕ → List ℕ
file_stem name = stem_of name (at_last_dot name)

unfoldable pub extension : List ℕ → List ℕ
extension name = extension_of (at_last_dot name)

-- A number's decimal digits, at most as many as the fuel and one.
unfoldable pub decimal : ℕ → ℕ → List ℕ
decimal zero n = (48 + n % 10) ∷ []
decimal (suc fuel) n =
    let rest = decimal fuel (n / 10) in
    if ltb n 10 then (48 + n) ∷ [] else rest ++ ((48 + n % 10) ∷ [])

-- `{index:04}`; a `u32` has at most ten digits.
unfoldable pub four_digits : ℕ → List ℕ
four_digits index = let digits = decimal 9 index in replicate (4 - length digits) 48 ++ digits

-- What stands behind the index.
abbrev pub dot_extension : List ℕ → List ℕ
dot_extension [] = []
dot_extension (c ∷ cs) = 46 ∷ c ∷ cs

unfoldable pub member_path : BasePath → Option RingConfig → ℕ → List ℕ
member_path base none index = base.directory ++ base.file_name
member_path base (some ring) index =
    base.directory
    ++ (file_stem base.file_name
        ++ (45 ∷ (four_digits index ++ dot_extension (extension base.file_name))))

-- `.partial`.
abbrev pub partial_suffix : List ℕ
partial_suffix = 46 ∷ 112 ∷ 97 ∷ 114 ∷ 116 ∷ 105 ∷ 97 ∷ 108 ∷ []

unfoldable pub partial_path : List ℕ → List ℕ
partial_path final_path = final_path ++ partial_suffix
