-- ===== src/Times.antt =====
-- src/passes/semantics/time_and_difficulty.rs: the times and difficulties of statements, on stacks. An
-- addition to a time wraps around, as in a release build. Expressions have no statements, so that their
-- visits do nothing; node ids are always present.
pub mod Scopes
pub mod Assigned
mod Tests
use truth.Base.{ℕ, Bool, true, false, ◌||◌, Option, none, some, List, [], ◌∷◌, if◌then◌else◌}
use truth.Base.Assoc.{Assoc, get, insert}
use truth.Base.Run.{Run, ok, err, panic, ◌>>=◌, expect}
use truth.BitSet.{BitSet32}
use truth.Int32.{wrapping_add}
use truth.Ast.Stmt.{
  Stmt, stmt, StmtKind, DiffLabel, Item, func, anm_script, timeline, Stmts, no_stmts, and_then,
  CondBlocks, no_blocks, cond_block,
}
use truth.Vm.Exec.{TimeAndDifficulty}

abbrev pub default_difficulty_mask : BitSet32
default_difficulty_mask = 0xff

-- The stacks, their last elements first.
pub record TimeAndDifficultyHelper : Type 0 where
  pub difficulty_stack : List BitSet32
  pub time_stack : List ℕ

-- The output, and whether an error was reported.
abbrev pub Output : Type 0
Output = Assoc TimeAndDifficulty × Bool

pub record Visitor : Type 0 where
  pub helper : TimeAndDifficultyHelper
  pub output : Output

unfoldable pub last {ℓ} : {A : Type ℓ} → List A → Run A
last [] = panic
last (x ∷ xs) = ok x

unfoldable pub pop {ℓ} : {A : Type ℓ} → List A → Run (List A)
pop [] = panic
pop (x ∷ xs) = ok xs

-- The time label of a statement, as a function of the time before it.
unfoldable pub time_after : {F : Type 0} → StmtKind F → ℕ → ℕ
time_after (StmtKind.abs_time_label t) time = t
time_after (StmtKind.rel_time_label delta) time = wrapping_add time delta
time_after _ time = time

unfoldable pub is_time_label : {F : Type 0} → StmtKind F → Bool
is_time_label (StmtKind.abs_time_label _) = true
is_time_label (StmtKind.rel_time_label _) = true
is_time_label _ = false

unfoldable pub set_time : (ℕ → ℕ) → TimeAndDifficultyHelper → Run TimeAndDifficultyHelper
unfolding last pop
set_time f h = do
  t ← last h.time_stack
  ts ← pop h.time_stack
  ok (record h { time_stack = f t ∷ ts })

unfoldable pub visit_stmt_shallow :
    {F : Type 0} → StmtKind F → TimeAndDifficultyHelper → Run TimeAndDifficultyHelper
unfolding set_time time_after is_time_label
visit_stmt_shallow kind h =
    let changed = set_time (time_after kind) h in if is_time_label kind then changed else ok h

unfoldable pub enter_root_block : TimeAndDifficultyHelper → TimeAndDifficultyHelper
enter_root_block h = record {
  difficulty_stack = default_difficulty_mask ∷ h.difficulty_stack;
  time_stack = 0 ∷ h.time_stack;
}

unfoldable pub exit_root_block : TimeAndDifficultyHelper → Run TimeAndDifficultyHelper
unfolding pop
exit_root_block h = do
  ts ← pop h.time_stack
  ds ← pop h.difficulty_stack
  ok (record { difficulty_stack = ds; time_stack = ts })

unfoldable pub enter_block : TimeAndDifficultyHelper → Run TimeAndDifficultyHelper
unfolding last
enter_block h = do
  d ← last h.difficulty_stack
  ok (record h { difficulty_stack = d ∷ h.difficulty_stack })

unfoldable pub exit_block : TimeAndDifficultyHelper → Run TimeAndDifficultyHelper
unfolding pop
exit_block h = do ds ← pop h.difficulty_stack; ok (record h { difficulty_stack = ds })

unfoldable pub push_label : Option DiffLabel → TimeAndDifficultyHelper → Run TimeAndDifficultyHelper
push_label none h = ok h
push_label (some l) h = do
  d ← expect l.mask
  ok (record h { difficulty_stack = d ∷ h.difficulty_stack })

unfoldable pub enter_stmt :
    {F : Type 0}
    → Option DiffLabel
    → StmtKind F
    → TimeAndDifficultyHelper
    → Run TimeAndDifficultyHelper
unfolding visit_stmt_shallow push_label
enter_stmt label kind h = visit_stmt_shallow kind h >>= push_label label

unfoldable pub exit_stmt : Option DiffLabel → TimeAndDifficultyHelper → Run TimeAndDifficultyHelper
unfolding exit_block
exit_stmt none h = ok h
exit_stmt (some _) h = exit_block h

unfoldable pub has_entry : Option TimeAndDifficulty → Bool
has_entry none = false
has_entry (some _) = true

-- `id_map_insert`: a second entry of an id replaces the first and is an error.
unfoldable pub id_map_insert : ℕ → TimeAndDifficulty → Output → Output
unfolding has_entry
id_map_insert id data_ out = (insert id data_ out.0, out.1 || has_entry (get id out.0))

unfoldable pub on_helper :
    (TimeAndDifficultyHelper → Run TimeAndDifficultyHelper) → Visitor → Run Visitor
on_helper f v = f v.helper >>= (λ h. ok (record v { helper = h }))

unfoldable pub record_data : ℕ → Visitor → Run Visitor
unfolding last id_map_insert
record_data id v = do
  t ← last v.helper.time_stack
  d ← last v.helper.difficulty_stack
  ok (record v {
    output = id_map_insert id (record { stmt_time = t; difficulty_mask = d }) v.output;
  })

-- `visit_block` and `visit_root_block`, with the visit of the statements.
unfoldable pub in_block : (Visitor → Run Visitor) → Visitor → Run Visitor
unfolding on_helper enter_block exit_block
in_block walk v = on_helper enter_block v >>= walk >>= on_helper exit_block

unfoldable pub in_root_block : (Visitor → Run Visitor) → Visitor → Run Visitor
unfolding in_block enter_root_block exit_root_block
in_root_block walk v =
    in_block walk (record v { helper = enter_root_block v.helper }) >>= on_helper exit_root_block

unfoldable mutual
  unfolding enter_stmt exit_stmt on_helper record_data in_block in_root_block

  pub visit_stmts : {F : Type 0} → Stmts F → Visitor → Run Visitor
  visit_stmts no_stmts v = ok v
  visit_stmts (and_then s stmts) v = visit_stmt s v >>= visit_stmts stmts

  pub visit_stmt : {F : Type 0} → Stmt F → Visitor → Run Visitor
  visit_stmt (stmt id label kind) v =
      on_helper (enter_stmt label kind) v
      >>= record_data id
      >>= visit_kind kind
      >>= on_helper (exit_stmt label)

  pub visit_kind : {F : Type 0} → StmtKind F → Visitor → Run Visitor
  visit_kind (StmtKind.item x) v = visit_item x v
  visit_kind (StmtKind.cond_chain blocks) v = visit_cond_blocks blocks v
  visit_kind (StmtKind.cond_chain_else blocks else_block) v =
      visit_cond_blocks blocks v >>= in_block (visit_stmts else_block)
  visit_kind (StmtKind.loop body) v = in_block (visit_stmts body) v
  visit_kind (StmtKind.while _ _ body) v = in_block (visit_stmts body) v
  visit_kind (StmtKind.times _ _ body) v = in_block (visit_stmts body) v
  visit_kind (StmtKind.block body) v = in_block (visit_stmts body) v
  visit_kind _ v = ok v

  pub visit_cond_blocks : {F : Type 0} → CondBlocks F → Visitor → Run Visitor
  visit_cond_blocks no_blocks v = ok v
  visit_cond_blocks (cond_block _ _ b blocks) v =
      in_block (visit_stmts b) v >>= visit_cond_blocks blocks

  pub visit_item : {F : Type 0} → Item F → Visitor → Run Visitor
  visit_item (func _ _ _ code) v = in_root_block (visit_stmts code) v
  visit_item (anm_script code) v = in_root_block (visit_stmts code) v
  visit_item (timeline code) v = in_root_block (visit_stmts code) v
  visit_item _ v = ok v

unfoldable pub visit_items : {F : Type 0} → List (Item F) → Visitor → Run Visitor
unfolding visit_item
visit_items [] v = ok v
visit_items (x ∷ xs) v = visit_item x v >>= visit_items xs

-- The visitor starts as if it had entered the body of a function.
abbrev pub start : Visitor
start = record {
  helper = record {
    difficulty_stack = default_difficulty_mask ∷ default_difficulty_mask ∷ [];
    time_stack = 0 ∷ [];
  };
  output = ([], false);
}

unfoldable pub into_result : Visitor → Run (Assoc TimeAndDifficulty)
into_result v = if v.output.1 then err else ok v.output.0

-- `run` of the statements of a body, and of the items of a file.
unfoldable pub run : {F : Type 0} → Stmts F → Run (Assoc TimeAndDifficulty)
unfolding visit_stmts into_result
run b = visit_stmts b start >>= into_result

unfoldable pub run_items : {F : Type 0} → List (Item F) → Run (Assoc TimeAndDifficulty)
unfolding visit_items into_result
run_items script = visit_items script start >>= into_result
