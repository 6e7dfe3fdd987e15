-- ===== src/Times/Tests.antt =====
-- The times and difficulties of `+10: { 5: {"E"}: x; } +1: y;`, whose labels are statements.
use truth.Base.{ℕ, Option, none, some, List, [], ◌∷◌, false, ◌≡◌, refl, if◌then◌else◌}
use truth.Base.Assoc.{Assoc}
use truth.Base.Run.{ok, err, panic, ◌>>=◌}
use truth.Ast.Stmt.{Stmt, stmt, StmtKind, func, Stmts, no_stmts, and_then}
use truth.Ast.Ops.{TypeKeyword}
use truth.Vm.Exec.{TimeAndDifficulty}
use truth.Times.{run, run_items, default_difficulty_mask}
use truth.Times.Scopes.{assign_stmts}
use truth.Times.Assigned.{run-assign_stmts}

abbrev F : Type 0
F = Unit {0}

abbrev plain : ℕ → StmtKind F → Stmt F
plain id kind = stmt id none kind

abbrev body : Stmts F
body = and_then (plain 1 (StmtKind.rel_time_label 10)) (
    and_then
      (plain 2 (
        StmtKind.block (
          and_then (plain 3 (StmtKind.abs_time_label 5)) (
            and_then (stmt 4 (some (record { mask = some 1 })) StmtKind.no_instruction) no_stmts))))
      (and_then (plain 5 (StmtKind.rel_time_label 1)) no_stmts))

abbrev data_of : ℕ → ℕ → TimeAndDifficulty
data_of t d = record { stmt_time = t; difficulty_mask = d }

run_test :
    run body
    ≡ ok (
        (1, data_of 10 0xff)
        ∷ (2, data_of 10 0xff)
        ∷ (3, data_of 5 0xff)
        ∷ (4, data_of 5 1)
        ∷ (5, data_of 6 0xff)
        ∷ [])
unfolding run truth.Base.Assoc.get truth.Base.Assoc.insert
run_test = refl

-- An id that stands twice.
duplicate_test :
    run {F = F} (
      and_then
        (plain 1 StmtKind.no_instruction)
        (and_then (plain 1 StmtKind.no_instruction) no_stmts))
    ≡ err
unfolding run truth.Base.Assoc.get truth.Base.Assoc.insert
duplicate_test = refl

-- A mask that has not been computed.
no_mask_test :
    run {F = F} (and_then (stmt 1 (some (record { mask = none })) (StmtKind.label 0)) no_stmts)
    ≡ panic
unfolding run
no_mask_test = refl

-- The body of a function starts at time 0.
item_test :
    run_items (
      func TypeKeyword.void_keyword 0 [] (and_then (plain 1 (StmtKind.rel_time_label 3)) no_stmts)
      ∷ func TypeKeyword.void_keyword 0 [] (and_then (plain 2 StmtKind.no_instruction) no_stmts)
      ∷ [])
    ≡ ok ((1, data_of 3 0xff) ∷ (2, data_of 0 0xff) ∷ [])
unfolding run_items truth.Base.Assoc.get truth.Base.Assoc.insert
item_test = refl

run-assign_stmts_example :
    run body
    ≡ assign_stmts default_difficulty_mask body (0, ([], false))
      >>= (λ (t, out). if out.1 then err else ok out.0)
run-assign_stmts_example = run-assign_stmts body
