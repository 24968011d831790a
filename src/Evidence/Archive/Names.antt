-- ===== src/Evidence/Archive/Names.antt =====
-- The names of archive members: `readName` of src/contracts/evidence.mjs, and the tests on names of
-- `parseDirectory`. A name is the list of its code points.
use billing_validation_contr.Common.{
  ℕ, Bool, true, false, ◌&&◌, ◌||◌, not, String, List, [], ◌∷◌, map, Option, none, some, ltb,
  nat_eq, if◌then◌else◌, some_of, codes, is_lower, to_lower, same_codes,
}
use billing_validation_contr.Evidence.Bytes.{
  Reply, ok, refused, ◌>>=◌, ◌>>◌, require, artifact_zip_invalid, artifact_path_forbidden,
}
use billing_validation_contr.Evidence.Utf8.{decode_utf8}

-- `name.split('/')`.
abbrev split_slashes : List ℕ → List (List ℕ)
split_slashes [] = [] ∷ []
split_slashes (c ∷ cs) = elim (split_slashes cs) [
  | [] ↦ []
  | s ∷ rest ↦ if nat_eq c b'/' then [] ∷ s ∷ rest else (c ∷ s) ∷ rest
]

-- U+0000 to U+001F, U+007F, and the backslash.
abbrev is_forbidden_code : ℕ → Bool
is_forbidden_code c = ltb c 0x20 || nat_eq c 0x7f || nat_eq c 0x5c

abbrev is_dots : List ℕ → Bool
is_dots s = same_codes s (codes ".") || same_codes s (codes "..")

-- The folding of the flags `iu` onto lower-case ASCII letters.
abbrev fold_case : ℕ → ℕ
fold_case c = if nat_eq c 0x17f then b's' else if nat_eq c 0x212a then b'k' else to_lower c

-- A name that starts with '/' or with a drive letter.
abbrev is_rooted : List ℕ → Bool
is_rooted [] = false
is_rooted (c ∷ []) = nat_eq c b'/'
is_rooted (c ∷ d ∷ cs) = nat_eq c b'/' || (is_lower (fold_case c) && nat_eq d b':')

abbrev is_empty : List ℕ → Bool
is_empty [] = true
is_empty (c ∷ cs) = false

unfoldable pub is_name : List ℕ → Bool
is_name name =
    not (is_empty name)
    && not (some_of is_forbidden_code name)
    && not (is_rooted name)
    && not (some_of is_dots (split_slashes name))

abbrev pub decoded : Option (List ℕ) → Reply (List ℕ)
decoded none = refused artifact_zip_invalid
decoded (some name) = ok name

unfoldable pub read_name : List ℕ → Reply (List ℕ)
read_name bytes = do
  name ← decoded (decode_utf8 bytes)
  require (is_name name) artifact_path_forbidden
  ok name

abbrev ends_with : List ℕ → List ℕ → Bool
ends_with suffix [] = same_codes suffix []
ends_with suffix (c ∷ cs) = same_codes suffix (c ∷ cs) || ends_with suffix cs

-- `name.endsWith('/')`.
unfoldable pub is_directory : List ℕ → Bool
is_directory name = ends_with (codes "/") name

abbrev executable_suffixes : List String
executable_suffixes =
    ".sh" ∷ ".bash" ∷ ".zsh" ∷ ".command" ∷ ".exe" ∷ ".dll" ∷ ".so" ∷ ".dylib" ∷ ".bat" ∷ ".cmd"
    ∷ ".ps1" ∷ ".py" ∷ ".pyc" ∷ ".js" ∷ ".mjs" ∷ ".cjs" ∷ ".wasm" ∷ []

unfoldable pub is_executable : List ℕ → Bool
is_executable name = some_of (λ s. ends_with (codes s) (map fold_case name)) executable_suffixes
