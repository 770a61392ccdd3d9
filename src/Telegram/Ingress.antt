-- ===== src/Telegram/Ingress.antt =====
-- src/operations/operations-state.ts: the updates that were handled, and the cursor of the polling.
use real_ming.Base.{
  ℕ, String, ◌==◌, ℕ_eq, ltb, leb, if◌then◌else◌, ◌≡◌, refl, sym, ap, ◌∙◌, Option, none, some, List,
  [], ◌∷◌, ◌++◌, find, exists, find-insert, Option-cases, Bool-cases, inl, inr, exists_of_find,
  exists-none, find-eq-none, test_self, arith,
}
use real_ming.Telegram.Kinds.{Ownership}
use real_ming.Telegram.Tables.{cursor_invalid, Result, ok, err}

-- A row of `telegram_ingress_results`, whose JSON column holds values of `A`.
pub record IngressRow (A : Type 0) : Type 0 where
  pub update_id : ℕ
  pub actor_id : String
  pub workspace_id : String
  pub result : A
  pub processed_at : String

abbrev result_of : {A : Type 0} → Option (IngressRow A) → Option A
result_of none = none
result_of (some row) = some row.result

-- `telegramIngressResult`
abbrev pub telegram_ingress_result : {A : Type 0} → ℕ → List (IngressRow A) → Option A
telegram_ingress_result id rows = result_of (find (λ r. r.update_id == id) rows)

abbrev or_else : {A : Type 0} → Option A → A → A
or_else none a = a
or_else (some b) a = b

abbrev ingress_row : {A : Type 0} → ℕ → Ownership → A → String → IngressRow A
ingress_row id ownership result at = record {
  update_id = id;
  actor_id = ownership.actor_id;
  workspace_id = ownership.workspace_id;
  result = result;
  processed_at = at;
}

-- `INSERT OR IGNORE`
abbrev kept : {A : Type 0} → ℕ → Ownership → A → String → List (IngressRow A) → List (IngressRow A)
kept id ownership result at rows =
    if exists (λ r. r.update_id == id) rows
    then rows
    else rows ++ (ingress_row id ownership result at ∷ [])

unfoldable pub record_telegram_ingress_result :
    {A : Type 0} → ℕ → Ownership → A → String → List (IngressRow A) → A × List (IngressRow A)
record_telegram_ingress_result id ownership result at rows =
    let after = kept id ownership result at rows in
    (or_else (telegram_ingress_result id after) result, after)

-- The row of `telegram_ingress_cursor`.
pub record Cursor : Type 0 where
  pub update_id : ℕ
  pub advanced_at : String

unfoldable pub telegram_ingress_cursor : Option Cursor → ℕ
telegram_ingress_cursor none = 0
telegram_ingress_cursor (some c) = c.update_id

abbrev max : ℕ → ℕ → ℕ
max a b = if leb a b then b else a

abbrev upserted : ℕ → String → Option Cursor → Cursor
upserted id at none = record { update_id = id; advanced_at = at }
upserted id at (some c) = record { update_id = max c.update_id id; advanced_at = at }

-- `none` stands for a number that is negative, a fraction or not finite.
unfoldable pub advance_telegram_ingress_cursor :
    Option ℕ → String → Option Cursor → Result (Option Cursor)
advance_telegram_ingress_cursor none at cursor = err cursor_invalid
advance_telegram_ingress_cursor (some id) at cursor =
    if ltb id 0x20000000000000 then ok (some (upserted id at cursor)) else err cursor_invalid

abbrev advanced : Result (Option Cursor) → Option Cursor → Option Cursor
advanced (ok c) before = c
advanced (err e) before = before

-- The cursor after a sequence of advances, some of which may throw.
abbrev pub all_advanced : List (Option ℕ × String) → Option Cursor → Option Cursor
all_advanced [] c = c
all_advanced ((id, at) ∷ moves) c =
    all_advanced moves (advanced (advance_telegram_ingress_cursor id at c) c)

-- The greatest update among those that a cursor may hold.
abbrev pub greatest : ℕ → List (Option ℕ × String) → ℕ
greatest n [] = n
greatest n ((none, at) ∷ moves) = greatest n moves
greatest n ((some id, at) ∷ moves) =
    greatest (if ltb id 0x20000000000000 then max n id else n) moves

max_zero : (n : ℕ) → max 0 n ≡ n
max_zero n = ground arith

one_advanced :
    (id : ℕ) (at : String) (c : Option Cursor)
    → telegram_ingress_cursor (advanced (advance_telegram_ingress_cursor (some id) at c) c) ≡ (
        if ltb id 0x20000000000000
        then max (telegram_ingress_cursor c) id
        else telegram_ingress_cursor c)
unfolding advance_telegram_ingress_cursor telegram_ingress_cursor
one_advanced id at c = elim (Bool-cases (ltb id 0x20000000000000)) [
  | inr f ↦ rw f refl
  | inl t ↦ rw t (safe c)
]
  where
    safe :
        (c : Option Cursor)
        → telegram_ingress_cursor (some (upserted id at c)) ≡ max (telegram_ingress_cursor c) id
    safe none = sym (max_zero id)
    safe (some c) = refl

-- However updates are handled, out of order or again, the cursor ends at the greatest of where it
-- was and the safe integers that it was advanced to.
pub all_advanced-greatest :
    (moves : List (Option ℕ × String)) (c : Option Cursor)
    → telegram_ingress_cursor (all_advanced moves c) ≡ greatest (telegram_ingress_cursor c) moves
unfolding advance_telegram_ingress_cursor
all_advanced-greatest [] c = refl
all_advanced-greatest ((none, at) ∷ moves) c = all_advanced-greatest moves c
all_advanced-greatest ((some id, at) ∷ moves) c =
    all_advanced-greatest moves (advanced (advance_telegram_ingress_cursor (some id) at c) c)
    ∙ ap (λ n. greatest n moves) (one_advanced id at c)

module _ {A : Type 0} (id : ℕ) where
  -- A recorded update is answered by its row, which stays.
  settled :
      (o : Ownership) (r : A) (at : String) (rows : List (IngressRow A)) {row : IngressRow A}
      → find (λ x. x.update_id == id) rows ≡ some row
      → record_telegram_ingress_result id o r at rows ≡ (row.result, rows)
  unfolding record_telegram_ingress_result
  settled o r at rows e = rw (exists_of_find (λ x. x.update_id == id) rows e, e) refl

  keeps_one :
      (o : Ownership) (r : A) (at : String) (rows : List (IngressRow A))
      → (row : IngressRow A) × (find (λ x. x.update_id == id) (kept id o r at rows) ≡ some row)
  keeps_one o r at rows = elim (Option-cases (find (λ x. x.update_id == id) rows)) [
    | inr (row, e) ↦ (row, rw (exists_of_find (λ x. x.update_id == id) rows e) e)
    | inl e ↦
        let fresh =
          exists-none (λ x. x.update_id == id) rows
            (find-eq-none (λ x. x.update_id == id) rows e) in
        (
          ingress_row id o r at,
          rw
              (
                fresh,
                find-insert (λ x. x.update_id == id) rows (ingress_row id o r at),
                e,
                test_self id,
              )
              refl,
        )
  ]

  -- What an update was answered first, it is answered ever after, whatever is recorded for it.
  pub record_ingress-again :
      (o p : Ownership) (r s : A) (at later : String) (rows : List (IngressRow A))
      → record_telegram_ingress_result id p s later
          (record_telegram_ingress_result id o r at rows).1
        ≡ record_telegram_ingress_result id o r at rows
  unfolding record_telegram_ingress_result
  record_ingress-again o p r s at later rows =
      let (row, e) = keeps_one o r at rows in
      settled p s later (kept id o r at rows) e ∙ (rw e refl)
