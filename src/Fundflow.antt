-- ===== src/Fundflow.antt =====
-- fundflow.go: the rows of the cash flow that a notified transaction becomes. The stored procedures
-- of the database, the local time and the random numbers are parameters.
pub mod Rows
pub mod Cache
pub mod Shape
mod Tests
use dashcash_wallet.Prelude.{
  ℕ, suc, ◌+◌, ◌-◌, ◌/◌, ◌%◌, Bool, true, false, ◌||◌, Option, none, some, List, [], ◌∷◌, ◌++◌,
  length, replicate, ltb, ◌==◌, if◌then◌else◌,
}
use dashcash_wallet.Prelude.Int.{ℤ, eqb_ℤ, negsuc, pos}
use dashcash_wallet.Text.{Bytes, bytes_eq, codes, utf8}
use dashcash_wallet.Decimal.{format_int, format_uint}
use dashcash_wallet.Hex.{hex_digit}
use dashcash_wallet.Shift.{left_shift}
use dashcash_wallet.Notify.{NotifyMessage, TxType}

-- strconv.Quote of a text whose bytes above 127 make printable characters.
unfoldable pub quote_byte : ℕ → Bytes
quote_byte c =
    if c == 34 || c == 92
    then 92 ∷ c ∷ []
    else if c == 7
    then 92 ∷ b'a' ∷ []
    else if c == 8
    then 92 ∷ b'b' ∷ []
    else if c == 9
    then 92 ∷ b't' ∷ []
    else if c == 10
    then 92 ∷ b'n' ∷ []
    else if c == 11
    then 92 ∷ b'v' ∷ []
    else if c == 12
    then 92 ∷ b'f' ∷ []
    else if c == 13
    then 92 ∷ b'r' ∷ []
    else if ltb c 32 || c == 127
    then 92 ∷ b'x' ∷ hex_digit (c / 16) ∷ hex_digit (c % 16) ∷ []
    else c ∷ []

unfoldable pub quote_bytes : Bytes → Bytes
quote_bytes [] = 34 ∷ []
quote_bytes (c ∷ s) = quote_byte c ++ quote_bytes s

unfoldable pub quote : Bytes → Bytes
quote s = 34 ∷ quote_bytes s

-- `%0wd`.
unfoldable pub pad_int : ℕ → ℤ → Bytes
pad_int w (pos n) = replicate (w - length (format_uint n)) b'0' ++ format_uint n
pad_int w (negsuc n) =
    b'-' ∷ (replicate (w - 1 - length (format_uint (suc n))) b'0' ++ format_uint (suc n))

-- strings.Join with commas.
unfoldable pub join : List Bytes → Bytes
join [] = []
join (s ∷ []) = s
join (s ∷ t ∷ fields) = s ++ (b',' ∷ join (t ∷ fields))

unfoldable pub row : List Bytes → Bytes
row fields = b'(' ∷ (join fields ++ b')' ∷ [])

unfoldable pub two_rows : List Bytes → List Bytes → Bytes
two_rows first second = row first ++ (codes ", " ++ row second)

-- A time in the local zone.
pub record Civil : Type 0 where
  pub year : ℤ
  pub month : ℤ
  pub day : ℤ
  pub hour : ℤ
  pub minute : ℤ
  pub second : ℤ

-- What a stored procedure returns: the numbers of its first row and its status, which stay 0 if
-- they are not given, or `none` where the database cannot be asked.
abbrev pub Procedure : Type 0
Procedure = Bytes → Option (List ℤ × ℤ)

pub record FlowDb : Type 0 where
  pub currency_id_by_symbol : Procedure
  pub user_id_by_recharge_address : Procedure
  pub user_ids_by_withdraw_hash : Procedure
  pub sys_user_id_by_sweep_hash : Procedure
  -- the status of the procedure that takes rows
  pub ins_flow_record : Bytes → Option ℤ

-- The numbers, and whether the error is nil. An error with a status still comes with the numbers.
unfoldable pub ask : Procedure → Bytes → List ℤ × Bool
ask call arg = elim (call arg) [
  | none ↦ ([], false)
  | some (values, status) ↦ (values, eqb_ℤ status (pos 1000))
]

abbrev pub first_of : List ℤ → ℤ
first_of [] = pos 0
first_of (z ∷ zs) = z

abbrev pub rest_of : List ℤ → List ℤ
rest_of [] = []
rest_of (z ∷ zs) = zs

-- The map `coinIds`, and a text with what the attempt to store it gave.
abbrev pub CoinIds : Type 0
CoinIds = List (Bytes × ℤ)

pub record Saved : Type 0 where
  pub coin_ids : CoinIds
  pub inserted : Option Bytes
  pub succeeded : Bool

unfoldable pub find_coin : CoinIds → Bytes → Option ℤ
find_coin [] symbol = none
find_coin ((key, id) ∷ ids) symbol = if bytes_eq key symbol then some id else find_coin ids symbol

module _ (db : FlowDb) (civil : ℕ → Civil) (rand : ℕ → ℕ) where
  unfoldable pub get_coin_id_by_name : Bytes → Option ℤ
  get_coin_id_by_name symbol =
      let (values, known) = ask db.currency_id_by_symbol symbol in
      if known then some (first_of values) else none

  -- The identifier of a coin, kept once it is known.
  unfoldable pub coin_id : Bytes → CoinIds → Option ℤ × CoinIds
  coin_id symbol ids = elim (find_coin ids symbol) [
    | some id ↦ (some id, ids)
    | none ↦ elim (get_coin_id_by_name symbol) [
      | some id ↦ (some id, (symbol, id) ∷ ids)
      | none ↦ (none, ids)
    ]
  ]

  -- `generateFlowID`, with the number of the random draw.
  unfoldable pub generate_flow_id : ℕ → NotifyMessage → ℤ → Bytes
  generate_flow_id draw message user =
      let t = civil message.block_time in
      pad_int 4 t.year
      ++ (pad_int 2 t.month
          ++ (pad_int 2 t.day
              ++ (pad_int 7 user
                  ++ (pad_int 2 t.hour
                      ++ (pad_int 2 t.minute
                          ++ (pad_int 2 t.second ++ pad_int 4 (pos (rand draw % 10000))))))))

  unfoldable pub save_fun_flow : CoinIds → Bytes → Saved
  save_fun_flow ids text = record {
    coin_ids = ids;
    inserted = some text;
    succeeded = elim (db.ins_flow_record text) [
      | none ↦ false
      | some status ↦ eqb_ℤ status (pos 1000)
    ];
  }

  -- A function that ends before it stores anything.
  unfoldable pub stop : CoinIds → Saved
  stop ids = record { coin_ids = ids; inserted = none; succeeded = false }

  -- The rest of a function behind its look-up of the coin.
  unfoldable pub save_with_coin : Bytes → CoinIds → (ℤ → Bytes) → Saved
  save_with_coin symbol ids rows =
      let (found, ids') = coin_id symbol ids in
      elim found [ none ↦ stop ids' | some coin ↦ save_fun_flow ids' (rows coin) ]
