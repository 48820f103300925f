-- ===== src/Tests/Server.antt =====
-- The memory platform meets the contract: there are no other clients.
use text.Mathlib.Text.{◌==◌ as str_eq}
use text.Mathlib.TextEquality.{eq_iff}
use text.Mathlib.TextPositions.{eq_refl}
use mileage_core.Base.{
  ℕ, String, Bool, true, false, ◌≡◌, refl, sym, ap, ◌∙◌, ◌≢◌, ◌⊎◌, inl, ◌&&◌, ◌++◌, Option, none,
  some, List, [], ◌∷◌, arith,
}
use mileage_core.Base.Int.{ℤ, pos, ◌+ℤ◌, eqb_ℤ, eqb_ℤ→eq, eqb_ℤ_refl}
use mileage_core.Base.Int64.{IsInt64}
use mileage_core.Errors.{no_rows}
use mileage_core.Domain.{MileageTransaction}
use mileage_core.Mysql.Rows.{AccountRow, TransactionRow}
use mileage_core.Mysql.MileageRepository.{insert_arguments}
use mileage_core.Mysql.Contract.{Server, On, TxView, row_of, updated_row, Applied}
use mileage_core.Platform.{Reply, SqlResult, varchar, bigint}
use mileage_core.Tables.{Tables, insert_row, update_row, find_row}
use mileage_core.Tests.Memory.{
  Memory, memory, is_int64, is_int64_sound, is_free, is_free_sound, insert_into, update_if,
  update_at, exec, commit_if, row_if, account_reply, get_account_row, get_transaction_row, next_id,
  found,
}

abbrev pub Same : Tables → Tables → Type 0
Same a b = a ≡ b

abbrev pub view : Memory → TxView
view m = record { is_fresh = true; writes = m.writes }

pub commit_if_lem :
    (m : Memory) (b : Bool)
    → is_free m.writes m.tables.transactions ≡ b
    → On
        (commit_if b m).0
        (λ u. Applied str_eq Same m.writes m.tables (commit_if b m).1.tables)
        (λ d.
          (m.tables ≡ (commit_if b m).1.tables)
          ⊎ Applied str_eq Same m.writes m.tables (commit_if b m).1.tables)
unfolding commit_if
commit_if_lem m true free = record {
  point = m.tables;
  reached = refl;
  locked = is_free_sound m.writes m.tables free;
  result = refl;
}
commit_if_lem m false taken = inl refl

abbrev pub Shown : String → Tables → AccountRow → Type 0
Shown user t row = (t.accounts user ≡ some row) × IsInt64 row.balance × IsInt64 row.version

row_if_lem :
    (user : String) (row : AccountRow) (b : Bool) (m : Memory)
    → (is_int64 row.balance && is_int64 row.version) ≡ b
    → m.tables.accounts user ≡ some row
    → ((row_if row b m).1 ≡ m)
      × On
          (row_if row b m).0
          (Shown user m.tables)
          (λ d. d ≡ no_rows → m.tables.accounts user ≡ none)
unfolding row_if
row_if_lem user row true m fits stored = (
  refl,
  (stored, is_int64_sound row.balance (ground arith), is_int64_sound row.version (ground arith)),
)
row_if_lem user row false m fits stored = (refl, λ e. cc)

account_reply_lem :
    (user : String) (o : Option AccountRow) (m : Memory)
    → m.tables.accounts user ≡ o
    → ((account_reply o m).1 ≡ m)
      × On
          (account_reply o m).0
          (Shown user m.tables)
          (λ d. d ≡ no_rows → m.tables.accounts user ≡ none)
unfolding account_reply
account_reply_lem user none m e = (refl, λ _. e)
account_reply_lem user (some row) m e = row_if_lem user row _ m refl e

found_lem :
    {R : Type 0} (o : Option R) → On (found o) (λ row. o ≡ some row) (λ d. d ≡ no_rows → o ≡ none)
found_lem none = λ _. refl
found_lem (some row) = refl

insert_into_lem :
    (t : MileageTransaction) (o : Option TransactionRow) (m : Memory)
    → let (r, m') = insert_into (row_of t none) o m in
      (m.tables ≡ m'.tables)
      × On r
          (λ res.
            (created : Option ℕ) × (m'.writes ≡ m.writes ++ (insert_row (row_of t created) ∷ [])))
          (λ d. Unit {0})
unfolding insert_into
insert_into_lem t none m = (refl, (none, refl))
insert_into_lem t (some taken) m = (refl, tt)

abbrev pub UpdateReply : String → ℤ → ℤ → Memory → Reply SqlResult × Memory → Type 0
UpdateReply user balance version m (r, m') =
    (m.tables ≡ m'.tables)
    × On r
        (λ res.
          On res.rows_affected
            (λ rows.
              (rows ≡ 0
                → (row : AccountRow) → m'.tables.accounts user ≡ some row
                → row.version ≢ version)
              × (rows ≢ 0
                  → (row : AccountRow) × (updated : Option ℕ) × (m'.tables.accounts user ≡ some row)
                    × (row.version ≡ version)
                    × IsInt64 (row.version +ℤ pos 1)
                    × (m'.writes
                        ≡ m.writes ++ (update_row user (updated_row row balance updated) ∷ []))))
            (λ d. Unit {0}))
        (λ d. Unit {0})

differs :
    (row r : AccountRow) (version : ℤ)
    → eqb_ℤ row.version version ≡ false
    → row ≡ r
    → r.version ≡ version
    → ⊥
differs row r version at it v =
    let equal : row.version ≡ version = ap (λ (x : AccountRow). x.version) it ∙ v in
    cc (ap (λ (z : ℤ). eqb_ℤ z version) equal ∙ eqb_ℤ_refl version)

update_if_lem :
    (user : String) (balance version : ℤ) (row : AccountRow) (a b : Bool) (m : Memory)
    → m.tables.accounts user ≡ some row
    → eqb_ℤ row.version version ≡ a
    → is_int64 (row.version +ℤ pos 1) ≡ b
    → UpdateReply user balance version m (update_if user (updated_row row balance none) a b m)
unfolding update_if
update_if_lem user balance version row true true m stored at fits = (
  refl,
  (
    (λ e. absurd (omega arith)),
    (λ _. (row, none, stored, eqb_ℤ→eq _ _ at, is_int64_sound _ fits, refl)),
  ),
)
update_if_lem user balance version row true false m stored at fits = (refl, tt)
update_if_lem user balance version row false b m stored at fits =
    (refl, ((λ e r s v. differs row r version at (ground arith) v), (λ ne. absurd (ne refl))))

update_at_lem :
    (user : String) (balance version : ℤ) (o : Option AccountRow) (m : Memory)
    → m.tables.accounts user ≡ o
    → UpdateReply user balance version m (update_at user balance version o m)
unfolding update_at
update_at_lem user balance version none m e = (refl, ((λ z row s. cc), (λ ne. absurd (ne refl))))
update_at_lem user balance version (some row) m e =
    update_if_lem user balance version row _ _ m e refl refl

pub same_symm : (a b : String) → str_eq a b ≡ true → str_eq b a ≡ true
same_symm a b h = (eq_iff b a).1 (sym ((eq_iff a b).0 h))

pub same_trans : (a b c : String) → str_eq a b ≡ true → str_eq b c ≡ true → str_eq a c ≡ true
same_trans a b c h k = (eq_iff a c).1 ((eq_iff a b).0 h ∙ (eq_iff b c).0 k)

pub versioned :
    (a b : Tables) (u : String) (r s : AccountRow)
    → Same a b
    → a.accounts u ≡ some r
    → b.accounts u ≡ some s
    → r.version ≡ s.version
    → r ≡ s
versioned a b u r s e x y v = ground (arith, ap (λ (t : Tables). t.accounts u) e)

pub next_id_lem :
    (ids : List String) (m : Memory)
    → (m.tables ≡ (next_id ids m).1.tables) × (m.writes ≡ (next_id ids m).1.writes)
unfolding next_id
next_id_lem [] m = (refl, refl)
next_id_lem (id ∷ rest) m = (refl, refl)

pub account_lem :
    (u : String) (m : Memory)
    → ((get_account_row (varchar u ∷ []) m).1 ≡ m)
      × On
          (get_account_row (varchar u ∷ []) m).0
          (Shown u (get_account_row (varchar u ∷ []) m).1.tables)
          (λ d. d ≡ no_rows → (get_account_row (varchar u ∷ []) m).1.tables.accounts u ≡ none)
unfolding get_account_row
account_lem u m =
    let (same_world, shown) = account_reply_lem u (m.tables.accounts u) m refl in
    rw same_world (refl, shown)

pub find_lem :
    (u key kind : String) (m : Memory)
    → let (r, m') = get_transaction_row (varchar u ∷ varchar key ∷ varchar kind ∷ []) m in
      (m.tables ≡ m'.tables)
      × On r
          (λ row. find_row str_eq u key kind m'.tables.transactions ≡ some row)
          (λ d. d ≡ no_rows → find_row str_eq u key kind m'.tables.transactions ≡ none)
unfolding get_transaction_row
find_lem u key kind m = (refl, found_lem (find_row str_eq u key kind m.tables.transactions))

pub insert_lem :
    (t : MileageTransaction) (m : Memory)
    → let (r, m') = exec (insert_arguments t) m in
      (m.tables ≡ m'.tables)
      × On r
          (λ res.
            (created : Option ℕ) × (m'.writes ≡ m.writes ++ (insert_row (row_of t created) ∷ [])))
          (λ d. Unit {0})
unfolding exec
insert_lem t m = insert_into_lem t _ m

pub update_lem :
    (u : String) (balance version : ℤ) (m : Memory)
    → UpdateReply u balance version m (exec (bigint balance ∷ varchar u ∷ bigint version ∷ []) m)
unfolding exec
update_lem u balance version m = update_at_lem u balance version (m.tables.accounts u) m refl

abbrev pub memory_server : Server memory
memory_server = record {
  committed = λ m. m.tables;
  view = λ t m. view m;
  same = str_eq;
  same_refl = eq_refl;
  same_symm = same_symm;
  same_trans = same_trans;
  Others = Same;
  others_refl = λ a. refl;
  others_trans = λ a b c p q. p ∙ q;
  others_versioned = versioned;
  begin_law = λ m. (refl, refl);
  commit_law = λ t m. commit_if_lem m _ refl;
  rollback_law = λ t m. refl;
  select_in_tx_law = λ t u m fresh. (
    ap (λ (x : Memory). x.tables) (sym (account_lem u m).0),
    ap (λ (x : Memory). x.writes) (account_lem u m).0 ∙ ap (λ (v : TxView). v.writes) fresh,
    (account_lem u m).1,
  );
  select_account_law =
      λ u m. (ap (λ (x : Memory). x.tables) (sym (account_lem u m).0), (account_lem u m).1);
  find_law = λ u key kind m. find_lem u key kind m;
  insert_law = λ t x m. insert_lem x m;
  update_law = λ t u balance version m. update_lem u balance version m;
  redis_get_law = λ key m. refl;
  redis_set_law = λ key bytes minutes m. refl;
  redis_del_law = λ key m. refl;
  ulid_law = λ m. (
    (next_id_lem m.ids m).0,
    λ t. λ i. record { is_fresh = true; writes = sym (next_id_lem m.ids m).1 i },
  );
}
