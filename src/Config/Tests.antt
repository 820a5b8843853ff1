-- ===== src/Config/Tests.antt =====
-- The theorem on saved settings, at a file kept as a list of its keys.
use dashcash_wallet.Prelude.{
  ◌≡◌, ◌^◌, refl, ◌&&◌, Option, none, some, List, [], ◌∷◌, arith, ltb, if◌then◌else◌,
}
use dashcash_wallet.Prelude.Int.{ℤ, negsuc, pos}
use dashcash_wallet.Text.{Bytes, bytes_eq, bytes_eq_refl}
use dashcash_wallet.Decimal.{big_of_text}
use dashcash_wallet.Decimal.RoundTrip.{big_of_text-format_uint}
use dashcash_wallet.Config.{Config, Ini, load_configuration, save_configuration}
use dashcash_wallet.Config.Saved.{IsApart, IsIni, load_configuration-save_configuration}

-- The entries of a file, the newest first.
abbrev File : Type 0
File = List (Bytes × (Bytes × Bytes))

abbrev file_string : File → Bytes → Bytes → Bytes
file_string [] s k = []
file_string ((s, (k, t)) ∷ file) s' k' =
    if bytes_eq s s' && bytes_eq k k' then t else file_string file s' k'

abbrev int_or : ℤ → Option ℤ → ℤ
int_or default none = default
int_or default (some (pos n)) = if ltb n (2 ^ 63) then pos n else default
int_or default (some (negsuc n)) = if ltb n (2 ^ 63) then negsuc n else default

abbrev list_ini : Ini File
list_ini = record {
  string_of = file_string;
  must_int = λ file s k default. int_or default (big_of_text (file_string file s k));
  set_value = λ file s k t. (s, (k, t)) ∷ file;
}

file_string-set :
    (file : File) (s k t s' k' : Bytes)
    → IsApart s k s' k'
    → file_string ((s, (k, t)) ∷ file) s' k' ≡ file_string file s' k'
file_string-set file s k t s' k' h = rw h refl

list_ini-IsIni : IsIni list_ini
list_ini-IsIni = record {
  int_set =
      λ file s k n default. rw (bytes_eq_refl s, bytes_eq_refl k, big_of_text-format_uint n) refl;
  int_kept = λ file s k t s' k' default h. rw (file_string-set file s k t s' k' h) refl;
  string_kept = file_string-set;
}

abbrev settings : Config
settings = record (load_configuration list_ini []) { index = 7; in_index = 2; last_block = 600000 }

load_configuration-save_configuration_example :
    load_configuration list_ini (save_configuration list_ini settings [])
    ≡ (record (load_configuration list_ini []) { index = 7; in_index = 2; last_block = 599997 })
unfolding load_configuration
load_configuration-save_configuration_example =
    load_configuration-save_configuration list_ini settings [] list_ini-IsIni (omega arith)
      (omega arith) (omega arith)
