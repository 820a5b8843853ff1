-- ===== src/Params/Found.antt =====
-- Which names of chains have parameters, and that these fit what the rest of the code concludes from
-- the name itself: it tests for the prefixes "bch" and "bsv", and takes the parameters on trust.
use mathlib.Core.List.{Memᴰ}
use mathlib.Core.List.Memᴰ
use dashcash_wallet.Prelude.{
  Bool, true, ◌||◌, ◌≡◌, ◌≢◌, sym, refl, ◌↔◌, ◌⊎◌, false, inl, inr, Bool-cases, some, List, [], ◌∷◌,
  map, arith, All,
}
use mathlib.Core.Path.{subst}
use dashcash_wallet.Text.{Bytes, bytes_eq, bytes_eq_iff, codes, has_prefix, lower_byte, to_lower}
use dashcash_wallet.Addresses.{on_bch, on_bsv}
use dashcash_wallet.Addresses.CashForm.{IsHrp}
use dashcash_wallet.Params.{
  ChainParams, btc_main_net, btc_test_net3, chain_params, find_param, get_param_by_name,
}

-- The names of the chains, in lowercase.
abbrev pub chain_names : List Bytes
chain_names =
    codes "btc"
    ∷ codes "dsc"
    ∷ codes "btctest"
    ∷ codes "bch"
    ∷ codes "bchtest"
    ∷ codes "bsv"
    ∷ codes "bsvtest"
    ∷ []

-- The version bytes of the legacy addresses of two chains are the same.
abbrev pub SameVersions : ChainParams → ChainParams → Type 0
SameVersions p q =
    (p.pub_key_hash_addr_id ≡ q.pub_key_hash_addr_id)
    × (p.script_hash_addr_id ≡ q.script_hash_addr_id)

-- The parameters of a chain of which the tests say `cash` and `sv`.
pub record IsChain (cash sv : Bool) (param : ChainParams) : Type 0 where
  pub cash_name : on_bch param.name ≡ cash
  pub sv_name : on_bsv param.name ≡ sv
  pub part : cash ≡ true → IsHrp param.bech32_hrp_segwit
  pub versions :
      (cash || sv) ≡ true → SameVersions param btc_main_net ⊎ SameVersions param btc_test_net3
  pub kinds : param.pub_key_hash_addr_id ≢ param.script_hash_addr_id

-- The same for a name in lowercase.
abbrev IsNamed : Bytes → ChainParams → Type 0
IsNamed key = IsChain (has_prefix key (codes "bch")) (has_prefix key (codes "bsv"))

find_param-found :
    (P : Bytes → ChainParams → Type 0) (params : List (Bytes × ChainParams)) (name : Bytes)
    → All (λ e. P e.0 e.1) params
    → Memᴰ name (map (λ e. e.0) params)
    → (param : ChainParams) × (find_param params name ≡ some param) × P name param
unfolding find_param
find_param-found P [] name h m = absurd (Memᴰ.not-nil m)
find_param-found P ((key, first) ∷ rest) name h m = elim (Bool-cases (bytes_eq key name)) [
  | inl same ↦ rw same (first, refl, subst (λ k. P k first) ((bytes_eq_iff key name).0 same) h.0)
  | inr other ↦ rw other (find_param-found P rest name h.1 (later (Memᴰ.cases_cons m) other))
]
  where
    later :
        {key name : Bytes} {rest : List Bytes}
        → (name ≡ key) ⊎ Memᴰ name rest
        → bytes_eq key name ≡ false
        → Memᴰ name rest
    later {key} {name} (inl e) other = absurd (ground (arith, (bytes_eq_iff key name).1 (sym e)))
    later (inr m) other = m

find_param-Mem :
    (params : List (Bytes × ChainParams)) (name : Bytes) (param : ChainParams)
    → find_param params name ≡ some param
    → Memᴰ name (map (λ e. e.0) params)
unfolding find_param
find_param-Mem [] name param e = ground arith
find_param-Mem ((key, first) ∷ rest) name param e = elim (Bool-cases (bytes_eq key name)) [
  | inl same ↦ Memᴰ.head (sym ((bytes_eq_iff key name).0 same))
  | inr other ↦
      let later : find_param rest name ≡ some param = ground arith in
      Memᴰ.tail (find_param-Mem rest name param later)
]

bitcoincash-IsHrp : IsHrp (codes "bitcoincash")
unfolding lower_byte
bitcoincash-IsHrp = record { filled = omega arith; short = omega arith; printed = omega arith }

bchtest-IsHrp : IsHrp (codes "bchtest")
unfolding lower_byte
bchtest-IsHrp = record { filled = omega arith; short = omega arith; printed = omega arith }

chain_params-IsNamed : All (λ e. IsNamed e.0 e.1) chain_params
unfolding on_bch on_bsv has_prefix lower_byte
chain_params-IsNamed = (
  record {
    cash_name = refl;
    sv_name = refl;
    part = λ e. ground arith;
    versions = λ e. ground arith;
    kinds = omega arith;
  },
  (
    record {
      cash_name = refl;
      sv_name = refl;
      part = λ e. ground arith;
      versions = λ e. ground arith;
      kinds = omega arith;
    },
    (
      record {
        cash_name = refl;
        sv_name = refl;
        part = λ e. ground arith;
        versions = λ e. ground arith;
        kinds = omega arith;
      },
      (
        record {
          cash_name = refl;
          sv_name = refl;
          part = λ e. bitcoincash-IsHrp;
          versions = λ e. inl (refl, refl);
          kinds = omega arith;
        },
        (
          record {
            cash_name = refl;
            sv_name = refl;
            part = λ e. bchtest-IsHrp;
            versions = λ e. inr (refl, refl);
            kinds = omega arith;
          },
          (
            record {
              cash_name = refl;
              sv_name = refl;
              part = λ e. ground arith;
              versions = λ e. inl (refl, refl);
              kinds = omega arith;
            },
            (
              record {
                cash_name = refl;
                sv_name = refl;
                part = λ e. ground arith;
                versions = λ e. inr (refl, refl);
                kinds = omega arith;
              },
              record {},
            ),
          ),
        ),
      ),
    ),
  ),
)

-- GetParamByName finds parameters for exactly the names that are, in lowercase, one of seven. What it
-- finds agrees with what the code concludes from the name: the parameters are of a chain with cash
-- addresses or of a bsv chain where the name is tested so; a chain with cash addresses has a prefix
-- that Decode takes; and the chains that came out of Bitcoin have its version bytes, of the main or of
-- the test network. The two kinds of addresses have different version bytes.
pub get_param_by_name-found :
    (name : Bytes)
    → Memᴰ (to_lower name) chain_names ↔ (
        (param : ChainParams) × (get_param_by_name name ≡ some param)
        × IsChain (on_bch name) (on_bsv name) param)
unfolding get_param_by_name on_bch on_bsv
get_param_by_name-found name = (
  find_param-found IsNamed chain_params (to_lower name) chain_params-IsNamed,
  λ h. find_param-Mem chain_params (to_lower name) h.0 h.1,
)
