-- ===== src/Lower/Labels/Layout.antt =====
-- The offsets that the first encoding finds are the ones of the instructions of the second.
use truth.Base.{
  ℕ, ◌+◌, ◌≡◌, refl, sym, subst, ap, ◌∙◌, Bool, true, false, none, List, [], ◌∷◌, length, ◌==◌,
  if◌then◌else◌, All,
}
use truth.Base.Run.{Run, ok, panic, Ensures-ok, Both-ok, ok-injective, ok-IsOk, bind-inverse}
use truth.Base.Assoc.{Assoc, get}
use truth.Lower.{RawInstr, LowerArgs, LowerInstr, LowerStmt, Language}
use truth.Lower.Encode.{ArgEncodingState}
use truth.Lower.Labels.{
  RawLabelInfo, LabelInfoverse, GatherState, substitute_args, instr_size, gather_stmt, gather_from,
  gather_label_info, encode_labels, encode_instr_labels, encode_stmt_labels, encode_each_stmt,
  emit_from, expect_encoded,
}
use truth.Lower.Labels.SameSize.{SameInstr}
use truth.Lower.Labels.Versions.{FinalStmt, BothEncode, instr_versions}
use truth.Lower.Labels.Gather.{
  GathersAs, gather_from-inverse, Keeps, enter_label-Keeps, gather_instr-inverse,
}

checked : {A : Type 0} (b : Bool) (m : Run A) (a : A) → (if b then m else panic) ≡ ok a → m ≡ ok a
checked true m a h = h
checked false m a h = absurd (ok-IsOk panic a h)

module _ {F : Type 0} (lang : Language F) where
  -- The offset of each statement, from the instructions that are written.
  unfoldable pub layout : ℕ → List (LowerStmt F) → List RawInstr → List ℕ
  layout offset [] instrs = []
  layout offset (LowerStmt.instr i ∷ code) [] = offset ∷ layout offset code []
  layout offset (LowerStmt.instr i ∷ code) (r ∷ instrs) =
      offset ∷ layout (offset + instr_size lang r) code instrs
  layout offset (_ ∷ code) instrs = offset ∷ layout offset code instrs

  -- The second encoding gives instructions, laid out as the first one found.
  abbrev Emits : GatherState → List ℕ → List (LowerStmt F) → Type 0
  Emits s offsets encoded =
      (instrs : List RawInstr) × ((emit_from lang s.encoding_state encoded ≡ ok instrs)
        × (layout s.offset encoded instrs ≡ offsets))

  kept-Emits :
      (s next : GatherState) (stmt : LowerStmt F) (offsets : List ℕ) (encoded : List (LowerStmt F))
      → ((state : ArgEncodingState)
          → emit_from lang state (stmt ∷ encoded) ≡ emit_from lang state encoded)
      → ((offset : ℕ) (instrs : List RawInstr)
          → layout offset (stmt ∷ encoded) instrs ≡ offset ∷ layout offset encoded instrs)
      → Keeps lang s next
      → Emits next offsets encoded
      → Emits s (s.offset ∷ offsets) (stmt ∷ encoded)
  kept-Emits s next stmt offsets encoded silent row k h = (
    h.0,
    (
      silent s.encoding_state ∙ ap (λ t. emit_from lang t encoded) (sym k.1) ∙ h.1.0,
      row s.offset h.0
          ∙ ap (λ xs. s.offset ∷ xs) (ap (λ o. layout o encoded h.0) (sym k.0) ∙ h.1.1),
    ),
  )

  instr-Emits :
      (s next : GatherState) (i : LowerInstr F) (args : LowerArgs F) (offsets : List ℕ)
      (encoded : List (LowerStmt F)) (dummies : LowerArgs F)
      → substitute_args lang i.args ≡ ok dummies
      → BothEncode lang s.encoding_state i dummies args
      → gather_stmt lang s (LowerStmt.instr i) ≡ ok next
      → Emits next offsets encoded
      → Emits s (s.offset ∷ offsets) (LowerStmt.instr (record i { args = args }) ∷ encoded)
  unfolding emit_from expect_encoded layout instr_size
  instr-Emits s next i args offsets encoded dummies d b g h =
      let first = gather_instr-inverse lang s next i dummies d g in
      let second = Both-ok (SameInstr lang) _ _ first.0 first.1.0 b in
      let state : next.encoding_state ≡ second.0.1 = first.1.1.1 ∙ second.2.1 in
      let offset : next.offset ≡ s.offset + instr_size lang second.0.0 =
        first.1.1.0 ∙ ap (λ n. s.offset + (lang.instr_header_size + n)) second.2.0 in
      (
        second.0.0 ∷ h.0,
        (
          rw (second.1, sym state, h.1.0) refl,
          ap (λ xs. s.offset ∷ xs) (ap (λ o. layout o encoded h.0) (sym offset) ∙ h.1.1),
        ),
      )

  stmt-Emits :
      (s next : GatherState) (labels : Assoc RawLabelInfo) (stmt stmt' : LowerStmt F)
      (offsets : List ℕ) (encoded : List (LowerStmt F))
      → FinalStmt stmt
      → gather_stmt lang s stmt ≡ ok next
      → encode_stmt_labels lang labels s.offset stmt ≡ ok stmt'
      → Emits next offsets encoded
      → Emits s (s.offset ∷ offsets) (stmt' ∷ encoded)
  unfolding encode_stmt_labels gather_stmt emit_from layout
  stmt-Emits s next labels (LowerStmt.instr i) stmt' offsets encoded f g e h =
      let args = bind-inverse (encode_instr_labels lang labels s.offset i.args) _ stmt' e in
      let versions =
        Ensures-ok _ _ args.0 (instr_versions lang s.encoding_state i labels s.offset i.args f)
          args.1.0 in
      subst (λ t. Emits s (s.offset ∷ offsets) (t ∷ encoded)) (ok-injective _ _ args.1.1)
        (instr-Emits s next i args.0 offsets encoded versions.0 versions.1.0 versions.1.1 g h)
  stmt-Emits s next labels (LowerStmt.label time name) stmt' offsets encoded f g e h =
      subst (λ t. Emits s (s.offset ∷ offsets) (t ∷ encoded)) (ok-injective _ _ e)
        (kept-Emits s next (LowerStmt.label time name) offsets encoded (λ _. refl) (λ _ _. refl)
          (enter_label-Keeps lang s next time name (get name s.labels) g) h)
  stmt-Emits s next labels (LowerStmt.reg_alloc def) stmt' offsets encoded f g e h =
      let same = ok-injective s next g in
      subst (λ t. Emits s (s.offset ∷ offsets) (t ∷ encoded)) (ok-injective _ _ e)
        (kept-Emits s next (LowerStmt.reg_alloc def) offsets encoded (λ _. refl) (λ _ _. refl)
          (sym (ap (λ x. x.offset) same), sym (ap (λ x. x.encoding_state) same)) h)
  stmt-Emits s next labels (LowerStmt.reg_free def) stmt' offsets encoded f g e h =
      let same = ok-injective s next g in
      subst (λ t. Emits s (s.offset ∷ offsets) (t ∷ encoded)) (ok-injective _ _ e)
        (kept-Emits s next (LowerStmt.reg_free def) offsets encoded (λ _. refl) (λ _ _. refl)
          (sym (ap (λ x. x.offset) same), sym (ap (λ x. x.encoding_state) same)) h)

  Emits-from :
      (code : List (LowerStmt F)) (s : GatherState) (info : LabelInfoverse)
      (labels : Assoc RawLabelInfo) (encoded : List (LowerStmt F))
      → All FinalStmt code
      → GathersAs lang s code info
      → encode_each_stmt lang labels info.stmt_offsets code ≡ ok encoded
      → Emits s info.stmt_offsets encoded
  unfolding gather_from encode_each_stmt emit_from layout
  Emits-from [] s info labels encoded f g e =
      subst (Emits s info.stmt_offsets) (ok-injective [] encoded e)
        ([], (refl, ap (λ x. x.stmt_offsets) (ok-injective _ info g)))
  Emits-from (stmt ∷ code) s info labels encoded f g e =
      let first = gather_from-inverse lang s stmt code info g in
      let next = first.0 in
      let rest = first.1.1.0 in
      let offsets : info.stmt_offsets ≡ s.offset ∷ rest.stmt_offsets =
        sym (ap (λ x. x.stmt_offsets) first.1.1.1.1) in
      let e' = subst (λ os. encode_each_stmt lang labels os (stmt ∷ code) ≡ ok encoded) offsets e in
      let head = bind-inverse (encode_stmt_labels lang labels s.offset stmt) _ encoded e' in
      let tail =
        bind-inverse (encode_each_stmt lang labels rest.stmt_offsets code) _ encoded head.1.1 in
      subst (λ os. Emits s os encoded) (sym offsets)
        (subst (Emits s (s.offset ∷ rest.stmt_offsets)) (ok-injective _ encoded tail.1.1) (
          stmt-Emits s next labels stmt head.0 rest.stmt_offsets tail.0 f.0 first.1.0 head.1.0
            (Emits-from code next rest labels tail.0 f.1 first.1.1.1.0 tail.1.0)))

  -- Once the labels of a sub have been found and encoded, with every register assigned and every
  -- switch elaborated, the second encoding gives instructions, and their sizes put every statement at
  -- the offset that the first encoding found for it.
  pub emit_from-layout :
      (code encoded : List (LowerStmt F)) (initial_offset : ℕ) (info : LabelInfoverse)
      → All FinalStmt code
      → gather_label_info lang initial_offset code ≡ ok info
      → encode_labels lang info code ≡ ok encoded
      → (instrs : List RawInstr) × ((emit_from lang none encoded ≡ ok instrs)
          × (layout initial_offset encoded instrs ≡ info.stmt_offsets))
  unfolding gather_label_info encode_labels
  emit_from-layout code encoded initial_offset info f g e =
      Emits-from code (record { offset = initial_offset; labels = []; encoding_state = none }) info
        info.labels encoded f g (checked (length code == length info.stmt_offsets) _ encoded e)
