-- ===== src/Usecase/Posting/Clients/Machine.antt =====
-- What the grant and redeem usecases promise their clients, as one small machine: balances and the
-- keys that are taken, with no versions, identifiers, times or attempts.
use text.Mathlib.Text.{◌==◌ as str_eq}
use mileage_core.Base.{
  String, Bool, ◌≡◌, refl, ap, not, ◌&&◌, ◌||◌, Option, none, some, List, [], ◌∷◌, ◌++◌,
  if◌then◌else◌,
}
use mileage_core.Base.Int.{ℤ, pos, ◌+ℤ◌, leb_ℤ}
use mileage_core.Base.Int64.{wrap64}
use mileage_core.Domain.{TransactionType, transaction_type_grant}
use mileage_core.Mysql.Rows.{TransactionRow}
use mileage_core.Tables.{Tables, find_row}
use mileage_core.Tables.Ledger.{signed, balance_of}
use mileage_core.Usecase.Posting.{PostingInput, Flow}

-- Balances by user, and the amount that was posted under a user's key of a type.
pub record Machine : Type 0 where
  pub balances : String → ℤ
  pub posted : String → String → TransactionType → Option ℤ

pub record Request : Type 0 where
  pub user_id : String
  pub key : String
  pub kind : TransactionType
  pub amount : ℤ

abbrev pub request_of : Flow → PostingInput → Request
request_of flow input = record {
  user_id = input.user_id;
  key = input.idempotency_key;
  kind = flow.kind;
  amount = input.amount;
}

-- A grant of a positive amount, or a redemption of a positive amount that the balance covers.
abbrev pub accepts : TransactionType → ℤ → ℤ → Bool
accepts kind amount balance =
    not (leb_ℤ amount (pos 0)) && (str_eq kind transaction_type_grant || leb_ℤ amount balance)

abbrev pub amount_of : Option TransactionRow → Option ℤ
amount_of none = none
amount_of (some r) = some r.amount

pub machine_eq :
    {m n : Machine}
    → ((u : String) → m.balances u ≡ n.balances u)
    → ((u key kind : String) → m.posted u key kind ≡ n.posted u key kind)
    → m ≡ n
machine_eq balances posted =
    λ i. record { balances = λ u. balances u i; posted = λ u key kind. posted u key kind i }

module _ (same : String → String → Bool) where
  -- The request goes through: the balance changes by its amount, and its key is taken.
  abbrev pub recorded : Request → Machine → Machine
  recorded r m = record {
    balances = λ u.
        if same r.user_id u
        then wrap64 (m.balances r.user_id +ℤ signed r.kind r.amount)
        else m.balances u;
    posted = λ u key kind.
        if same r.user_id u && (same r.key key && same r.kind kind)
        then some r.amount
        else m.posted u key kind;
  }

  abbrev pub post_under : Option ℤ → Request → Machine → Machine
  post_under (some amount) r m = m
  post_under none r m = if accepts r.kind r.amount (m.balances r.user_id) then recorded r m else m

  -- A request is posted at most once under its key, and only if it is accepted.
  abbrev pub post_once : Request → Machine → Machine
  post_once r m = post_under (m.posted r.user_id r.key r.kind) r m

  -- Requests one after another, the latest first.
  abbrev pub run : List Request → Machine → Machine
  run [] m = m
  run (r ∷ rs) m = post_once r (run rs m)

  pub run-append : (rs ss : List Request) (m : Machine) → run (rs ++ ss) m ≡ run rs (run ss m)
  run-append [] ss m = refl
  run-append (r ∷ rs) ss m = ap (post_once r) (run-append rs ss m)

  -- The machine that the tables stand for.
  abbrev pub machine_of : Tables → Machine
  machine_of t = record {
    balances = λ u. balance_of (t.accounts u);
    posted = λ u key kind. amount_of (find_row same u key kind t.transactions);
  }
