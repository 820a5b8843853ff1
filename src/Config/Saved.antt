-- ===== src/Config/Saved.antt =====
-- What `LoadConfiguration` reads of a file that `SaveConfiguration` wrote.
use dashcash_wallet.Prelude.{
  ℕ, ◌+◌, ◌-◌, ◌%◌, ◌^◌, ◌<◌, ◌≡◌, refl, ap, ◌∙◌, ◌&&◌, false, arith, ltb, if◌then◌else◌,
}
use dashcash_wallet.Prelude.Int.{ℤ, pos, signed32, word64}
use dashcash_wallet.Text.{Bytes, bytes_eq, codes}
use dashcash_wallet.Decimal.{format_uint}
use dashcash_wallet.Config.{Config, Ini, load_configuration, save_configuration}

-- Two keys that are not the same key of the same section.
abbrev pub IsApart : Bytes → Bytes → Bytes → Bytes → Type 0
IsApart s k s' k' = bytes_eq s s' && bytes_eq k k' ≡ false

-- What ini documents: a number that is set is read under its key if an int holds it, and as the
-- default otherwise, and the other keys keep what they had.
pub record IsIni {F : Type 0} (ini : Ini F) : Type 0 where
  pub int_set :
      (file : F) (s k : Bytes) (n : ℕ) (default : ℤ)
      → ini.must_int (ini.set_value file s k (format_uint n)) s k default
        ≡ (if ltb n (2 ^ 63) then pos n else default)
  pub int_kept :
      (file : F) (s k t s' k' : Bytes) (default : ℤ)
      → IsApart s k s' k'
      → ini.must_int (ini.set_value file s k t) s' k' default ≡ ini.must_int file s' k' default
  pub string_kept :
      (file : F) (s k t s' k' : Bytes)
      → IsApart s k s' k'
      → ini.string_of (ini.set_value file s k t) s' k' ≡ ini.string_of file s' k'

-- The block that is loaded after a block was saved: three blocks back, from the first block for the
-- first three.
abbrev pub loaded_block : ℕ → ℕ
loaded_block last = if ltb last (2 ^ 63 + 3) then last - 3 else 0

number-loaded_block :
    (last : ℕ)
    → last < 2 ^ 64
    → word64 (
        if ltb ((last + (2 ^ 64 - 3)) % 2 ^ 64) (2 ^ 63)
        then pos ((last + (2 ^ 64 - 3)) % 2 ^ 64)
        else pos 0)
      ≡ loaded_block last
number-loaded_block last h = ground arith

number-index : (n : ℕ) → n < 2 ^ 32 → word64 (if ltb n (2 ^ 63) then pos n else pos 0) % 2 ^ 32 ≡ n
number-index n h = ground arith

module _ {F : Type 0} (ini : Ini F) (laws : IsIni ini) (c : Config) (file : F) where
  -- A key apart from the three that are written.
  text :
      (s k : Bytes)
      → IsApart (codes "account") (codes "index") s k
      → IsApart (codes "account") (codes "change_index") s k
      → IsApart (codes "extapi") (codes "lastBlock") s k
      → ini.string_of (save_configuration ini c file) s k ≡ ini.string_of file s k
  unfolding save_configuration
  text s k h i j =
      laws.string_kept _ _ _ _ s k j
      ∙ laws.string_kept _ _ _ _ s k i
      ∙ laws.string_kept _ _ _ _ s k h

  number :
      (s k : Bytes) (default : ℤ)
      → IsApart (codes "account") (codes "index") s k
      → IsApart (codes "account") (codes "change_index") s k
      → IsApart (codes "extapi") (codes "lastBlock") s k
      → ini.must_int (save_configuration ini c file) s k default ≡ ini.must_int file s k default
  unfolding save_configuration
  number s k default h i j =
      laws.int_kept _ _ _ _ s k default j
      ∙ laws.int_kept _ _ _ _ s k default i
      ∙ laws.int_kept _ _ _ _ s k default h

  saved_index :
      ini.must_int (save_configuration ini c file) (codes "account") (codes "index") (pos 0)
      ≡ (if ltb c.index (2 ^ 63) then pos c.index else pos 0)
  unfolding save_configuration
  saved_index =
      laws.int_kept _ _ _ _ _ _ (pos 0) refl
      ∙ laws.int_kept _ _ _ _ _ _ (pos 0) refl
      ∙ laws.int_set file _ _ c.index (pos 0)

  saved_change :
      ini.must_int (save_configuration ini c file) (codes "account") (codes "change_index") (pos 0)
      ≡ (if ltb c.in_index (2 ^ 63) then pos c.in_index else pos 0)
  unfolding save_configuration
  saved_change = laws.int_kept _ _ _ _ _ _ (pos 0) refl ∙ laws.int_set _ _ _ c.in_index (pos 0)

  saved_block :
      ini.must_int (save_configuration ini c file) (codes "extapi") (codes "lastBlock") (pos 0) ≡ (
        if ltb ((c.last_block + (2 ^ 64 - 3)) % 2 ^ 64) (2 ^ 63)
        then pos ((c.last_block + (2 ^ 64 - 3)) % 2 ^ 64)
        else pos 0)
  unfolding save_configuration
  saved_block = laws.int_set _ _ _ ((c.last_block + (2 ^ 64 - 3)) % 2 ^ 64) (pos 0)

-- After settings are saved to a file, the file loads as before but for the two indexes, which are
-- those saved, and the last block, which is three blocks back, and block 0 for the first three
-- blocks, where the subtraction wraps, and for numbers that no int64 holds.
pub load_configuration-save_configuration :
    {F : Type 0} (ini : Ini F) (c : Config) (file : F)
    → IsIni ini
    → c.index < 2 ^ 32
    → c.in_index < 2 ^ 32
    → c.last_block < 2 ^ 64
    → load_configuration ini (save_configuration ini c file)
      ≡ (record (load_configuration ini file) {
        index = c.index;
        in_index = c.in_index;
        last_block = loaded_block c.last_block;
      })
unfolding load_configuration
load_configuration-save_configuration ini c file laws index change block = λ i. record {
  test_net = number ini laws c file (codes "network") (codes "testnet") (pos 0) refl refl refl i;
  chain_name = text ini laws c file (codes "network") (codes "chain") refl refl refl i;
  chain_id = signed32 (
      word64
        (number ini laws c file (codes "network") (codes "chain_id") (pos 1) refl refl refl i));
  rpc_url = text ini laws c file (codes "network") (codes "rpc_host") refl refl refl i;
  rpc_user = text ini laws c file (codes "network") (codes "rpc_user") refl refl refl i;
  rpc_pass = text ini laws c file (codes "network") (codes "rpc_pass") refl refl refl i;
  port = number ini laws c file (codes "network") (codes "port") (pos 8081) refl refl refl i;
  xpub = text ini laws c file (codes "account") (codes "xpub") refl refl refl i;
  xpriv = text ini laws c file (codes "account") (codes "xpriv") refl refl refl i;
  account_id = number ini laws c file (codes "account") (codes "id") (pos 0) refl refl refl i;
  index =
      (ap (λ z. word64 z % 2 ^ 32) (saved_index ini laws c file) ∙ number-index c.index index) i;
  in_index =
      (ap (λ z. word64 z % 2 ^ 32) (saved_change ini laws c file) ∙ number-index c.in_index change)
        i;
  last_block = (ap word64 (saved_block ini laws c file) ∙ number-loaded_block c.last_block block) i;
  fee_rate =
      word64 (number ini laws c file (codes "extapi") (codes "feerate") (pos 0) refl refl refl i)
      % 2 ^ 32;
  registry_addr = text ini laws c file (codes "extapi") (codes "registry") refl refl refl i;
  zmq_url = text ini laws c file (codes "extapi") (codes "zmq") refl refl refl i;
  db_dir = text ini laws c file (codes "extapi") (codes "dbDir") refl refl refl i;
  db_host = text ini laws c file (codes "db") (codes "host") refl refl refl i;
  db_name = text ini laws c file (codes "db") (codes "name") refl refl refl i;
  db_user = text ini laws c file (codes "db") (codes "user") refl refl refl i;
  db_pass = text ini laws c file (codes "db") (codes "pass") refl refl refl i;
}
