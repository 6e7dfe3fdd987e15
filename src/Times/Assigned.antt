-- ===== src/Times/Assigned.antt =====
-- src/passes/semantics/time_and_difficulty.rs: the pass, with its stacks, does what it promises.
use truth.Base.{ℕ, false, none, some, List, [], ◌∷◌, ◌≡◌, refl, sym, ap, ◌∙◌, if◌then◌else◌}
use truth.Base.Run.{Run, ok, err, panic, out_of_fuel, ◌>>=◌, expect}
use truth.BitSet.{BitSet32}
use truth.Ast.Stmt.{
  Stmt, stmt, StmtKind, DiffLabel, Item, func, anm_script, timeline, Stmts, no_stmts, and_then,
  CondBlocks, no_blocks, cond_block,
}
use truth.Times.{
  Visitor, default_difficulty_mask, time_after, is_time_label, enter_stmt, exit_stmt, on_helper,
  record_data, in_block, in_root_block, visit_stmt_shallow, visit_stmts, visit_stmt, visit_kind,
  visit_cond_blocks, visit_item, push_label, run, into_result,
}
use truth.Times.Scopes.{
  Passed, assign, anew, assign_stmts, assign_stmt, assign_kind, assign_cond_blocks, assign_item,
}

-- The visitor inside of the difficulties `d ∷ ds` and with outer times `ts`.
abbrev pub inside : BitSet32 → List BitSet32 → List ℕ → Passed → Visitor
inside d ds ts p = record {
  helper = record { difficulty_stack = d ∷ ds; time_stack = p.0 ∷ ts };
  output = p.1;
}

-- The visit `f` does what `g` says, and leaves the stacks as they were but for the time.
abbrev pub Does : BitSet32 → (Visitor → Run Visitor) → (Passed → Run Passed) → Type 0
Does d f g =
    (ds : List BitSet32) (ts : List ℕ) (p : Passed)
    → f (inside d ds ts p) ≡ g p >>= (λ q. ok (inside d ds ts q))

chain :
    {A B C : Type 0} (m : Run A) (f : A → Run B) (g : B → Run C) (h : A → Run C)
    → ((a : A) → f a >>= g ≡ h a)
    → (m >>= f) >>= g ≡ m >>= h
chain (ok a) f g h k = k a
chain err f g h k = refl
chain panic f g h k = refl
chain out_of_fuel f g h k = refl

-- One visit after another.
Does-then :
    (d : BitSet32) (f f' : Visitor → Run Visitor) (g g' : Passed → Run Passed)
    → Does d f g
    → Does d f' g'
    → Does d (λ v. f v >>= f') (λ p. g p >>= g')
Does-then d f f' g g' a b ds ts p =
    ap (λ m. m >>= f') (a ds ts p)
    ∙ (chain (g p) (λ q. ok (inside d ds ts q)) f' (λ q. g' q >>= (λ r. ok (inside d ds ts r)))
          (λ q. b ds ts q)
        ∙ sym (
            chain (g p) g' (λ r. ok (inside d ds ts r)) (λ q. g' q >>= (λ r. ok (inside d ds ts r)))
              (λ q. refl)))

-- A block has the difficulty of what is around it.
Does-block :
    (d : BitSet32) (f : Visitor → Run Visitor) (g : Passed → Run Passed)
    → Does d f g
    → Does d (in_block f) g
unfolding in_block
Does-block d f g a ds ts p =
    ap (λ m. m >>= on_helper truth.Times.exit_block) (a (d ∷ ds) ts p)
    ∙ chain (g p) (λ q. ok (inside d (d ∷ ds) ts q)) (on_helper truth.Times.exit_block)
        (λ q. ok (inside d ds ts q)) (λ q. refl)

Does-root :
    (d : BitSet32) (f : Visitor → Run Visitor) (g : Passed → Run Passed)
    → Does default_difficulty_mask f g
    → Does d (in_root_block f) (anew g)
unfolding in_root_block
Does-root d f g a ds ts p =
    ap (λ m. m >>= on_helper truth.Times.exit_root_block)
      (Does-block default_difficulty_mask f g a (d ∷ ds) (p.0 ∷ ts) (0, p.1))
    ∙ (chain (g (0, p.1)) _ (on_helper truth.Times.exit_root_block)
          (λ q. ok (inside d ds ts (p.0, q.1))) (λ q. refl)
        ∙ sym (
            chain (g (0, p.1)) (λ q. ok (p.0, q.1)) (λ q. ok (inside d ds ts q))
              (λ q. ok (inside d ds ts (p.0, q.1))) (λ q. refl)))

shallow :
    {F : Type 0} (kind : StmtKind F) (ds : List BitSet32) (t : ℕ) (ts : List ℕ)
    → visit_stmt_shallow kind (record { difficulty_stack = ds; time_stack = t ∷ ts })
      ≡ ok (record { difficulty_stack = ds; time_stack = time_after kind t ∷ ts })
unfolding visit_stmt_shallow
shallow (StmtKind.abs_time_label _) ds t ts = refl
shallow (StmtKind.rel_time_label _) ds t ts = refl
shallow _ ds t ts = refl

-- A statement, by its label; `at e` is what comes before its blocks.
module _ {F : Type 0} (d : BitSet32) (id : ℕ) (kind : StmtKind F)
    (visits : (e : BitSet32) → Does e (visit_kind kind) (assign_kind e kind)) where
  abbrev at : BitSet32 → Passed → Passed
  at e p = assign id e (time_after kind p.0, p.1)

  without_label : Does d (visit_stmt (stmt id none kind)) (assign_stmt d (stmt id none kind))
  unfolding visit_stmt assign_stmt
  without_label ds ts p =
      ap
        (λ m.
          (((m >>= (λ h. ok h)) >>= (λ h. ok (record (inside d ds ts p) { helper = h })))
            >>= record_data id
            >>= visit_kind kind)
          >>= on_helper (exit_stmt none))
        (shallow kind (d ∷ ds) p.0 ts)
      ∙ (ap (λ m. m >>= on_helper (exit_stmt none)) (visits d ds ts (at d p))
          ∙ chain (assign_kind d kind (at d p)) (λ q. ok (inside d ds ts q))
              (on_helper (exit_stmt none)) (λ q. ok (inside d ds ts q)) (λ q. refl))

  entered :
      (l : DiffLabel) (ds : List BitSet32) (ts : List ℕ) (p : Passed)
      → on_helper (enter_stmt (some l) kind) (inside d ds ts p)
        ≡ expect l.mask >>= (λ e. ok (inside e (d ∷ ds) ts (time_after kind p.0, p.1)))
  unfolding visit_stmt
  entered l ds ts p =
      ap (λ m. (m >>= push_label (some l)) >>= (λ h. ok (record (inside d ds ts p) { helper = h })))
        (shallow kind (d ∷ ds) p.0 ts)
      ∙ chain (expect l.mask) _ (λ h. ok (record (inside d ds ts p) { helper = h }))
          (λ e. ok (inside e (d ∷ ds) ts (time_after kind p.0, p.1))) (λ e. refl)

  with_label :
      (l : DiffLabel)
      → Does d (visit_stmt (stmt id (some l) kind)) (assign_stmt d (stmt id (some l) kind))
  unfolding visit_stmt assign_stmt
  with_label l ds ts p =
      let mask = expect l.mask in
      let out = on_helper (exit_stmt (some l)) in
      ap (λ m. ((m >>= record_data id) >>= visit_kind kind) >>= out) (entered l ds ts p)
      ∙ (ap (λ m. (m >>= visit_kind kind) >>= out)
            (chain mask _ (record_data id) (λ e. ok (inside e (d ∷ ds) ts (at e p))) (λ e. refl))
          ∙ (ap (λ m. m >>= out)
                (chain mask _ (visit_kind kind)
                  (λ e. assign_kind e kind (at e p) >>= (λ q. ok (inside e (d ∷ ds) ts q)))
                  (λ e. visits e (d ∷ ds) ts (at e p)))
              ∙ (chain mask _ out
                    (λ e. assign_kind e kind (at e p) >>= (λ q. ok (inside d ds ts q)))
                    (λ e.
                      chain (assign_kind e kind (at e p)) _ out (λ q. ok (inside d ds ts q))
                        (λ q. refl))
                  ∙ sym (
                      chain mask (λ e. assign_kind e kind (at e p)) (λ q. ok (inside d ds ts q))
                        (λ e. assign_kind e kind (at e p) >>= (λ q. ok (inside d ds ts q)))
                        (λ e. refl)))))

Does-none : (d : BitSet32) → Does d (λ v. ok v) (λ p. ok p)
Does-none d ds ts p = refl

mutual
  unfolding visit_stmts assign_stmts

  stmts-Does : {F : Type 0} (b : Stmts F) (d : BitSet32) → Does d (visit_stmts b) (assign_stmts d b)
  stmts-Does no_stmts d = Does-none d
  stmts-Does (and_then s stmts) d =
      Does-then d (visit_stmt s) (visit_stmts stmts) (assign_stmt d s) (assign_stmts d stmts)
        (stmt-Does s d) (stmts-Does stmts d)

  stmt-Does : {F : Type 0} (s : Stmt F) (d : BitSet32) → Does d (visit_stmt s) (assign_stmt d s)
  stmt-Does (stmt id none kind) d = without_label d id kind (λ e. kind-Does kind e)
  stmt-Does (stmt id (some l) kind) d = with_label d id kind (λ e. kind-Does kind e) l

  kind-Does :
      {F : Type 0} (kind : StmtKind F) (d : BitSet32)
      → Does d (visit_kind kind) (assign_kind d kind)
  kind-Does (StmtKind.item x) d = item-Does x d
  kind-Does (StmtKind.cond_chain blocks) d = cond_blocks-Does blocks d
  kind-Does (StmtKind.cond_chain_else blocks b) d =
      Does-then d (visit_cond_blocks blocks) (in_block (visit_stmts b))
        (assign_cond_blocks d blocks) (assign_stmts d b) (cond_blocks-Does blocks d)
        (Does-block d (visit_stmts b) (assign_stmts d b) (stmts-Does b d))
  kind-Does (StmtKind.loop b) d = Does-block d (visit_stmts b) (assign_stmts d b) (stmts-Does b d)
  kind-Does (StmtKind.while _ _ b) d =
      Does-block d (visit_stmts b) (assign_stmts d b) (stmts-Does b d)
  kind-Does (StmtKind.times _ _ b) d =
      Does-block d (visit_stmts b) (assign_stmts d b) (stmts-Does b d)
  kind-Does (StmtKind.block b) d = Does-block d (visit_stmts b) (assign_stmts d b) (stmts-Does b d)
  kind-Does _ d = Does-none d

  cond_blocks-Does :
      {F : Type 0} (blocks : CondBlocks F) (d : BitSet32)
      → Does d (visit_cond_blocks blocks) (assign_cond_blocks d blocks)
  cond_blocks-Does no_blocks d = Does-none d
  cond_blocks-Does (cond_block _ _ b blocks) d =
      Does-then d (in_block (visit_stmts b)) (visit_cond_blocks blocks) (assign_stmts d b)
        (assign_cond_blocks d blocks)
        (Does-block d (visit_stmts b) (assign_stmts d b) (stmts-Does b d))
        (cond_blocks-Does blocks d)

  item-Does : {F : Type 0} (x : Item F) (d : BitSet32) → Does d (visit_item x) (assign_item x)
  item-Does (func _ _ _ b) d =
      Does-root d (visit_stmts b) (assign_stmts default_difficulty_mask b)
        (stmts-Does b default_difficulty_mask)
  item-Does (anm_script b) d =
      Does-root d (visit_stmts b) (assign_stmts default_difficulty_mask b)
        (stmts-Does b default_difficulty_mask)
  item-Does (timeline b) d =
      Does-root d (visit_stmts b) (assign_stmts default_difficulty_mask b)
        (stmts-Does b default_difficulty_mask)
  item-Does _ d = Does-none d

-- The pass gives each statement the time and the difficulty that its scopes assign to it: the result is
-- the assigned output, an error where an id has two entries, and a panic where the mask of a label has not
-- been computed.
pub run-assign_stmts :
    {F : Type 0} (b : Stmts F)
    → run b
      ≡ assign_stmts default_difficulty_mask b (0, ([], false))
        >>= (λ (t, out). if out.1 then err else ok out.0)
unfolding run
run-assign_stmts b =
    ap (λ m. m >>= into_result)
      (stmts-Does b default_difficulty_mask (default_difficulty_mask ∷ []) [] (0, ([], false)))
    ∙ chain (assign_stmts default_difficulty_mask b (0, ([], false))) _ into_result
        (λ (t, out). if out.1 then err else ok out.0) (λ q. refl)
