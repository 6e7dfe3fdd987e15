-- ===== src/Lower/Labels/Positions.antt =====
-- Each label is found with the offset of its statement.
use truth.Base.{
  ℕ, zero, suc, ◌≡◌, refl, sym, subst, ap, ◌∙◌, arith, true, Option, none, some, List, [], ◌∷◌,
  get_elem?, ◌==◌, Bool-cases, inl, inr, ==_refl, ==_iff,
}
use truth.Base.Run.{ok, err, ◌>>=◌, bind-inverse, ok-injective, ok-IsOk}
use truth.Base.Assoc.{Assoc, get, insert, get-insert}
use truth.Lower.{LowerStmt, Language}
use truth.Lower.Labels.{
  RawLabelInfo, LabelInfoverse, GatherState, enter_label, gather_stmt, gather_from,
  substitute_dummy_args, gather_label_info,
}
use truth.Lower.Encode.{encode_args}
use truth.Lower.Labels.Gather.{GathersAs, gather_from-inverse}

module _ {F : Type 0} (lang : Language F) where
  enter_label-inverse :
      (s next : GatherState) (time name : ℕ) (entry : Option RawLabelInfo)
      → enter_label lang s time name entry ≡ ok next
      → (entry ≡ none)
        × (next.labels ≡ insert name (record { time = time; offset = s.offset }) s.labels)
  unfolding enter_label
  enter_label-inverse s next time name (some _) h = absurd (ok-IsOk err next h)
  enter_label-inverse s next time name none h =
      (refl, sym (ap (λ x. x.labels) (ok-injective _ _ h)))

  taken :
      (other name : ℕ) (x : RawLabelInfo) (labels : Assoc RawLabelInfo)
      → (other == name) ≡ true
      → get other labels ≡ none
      → get name labels ≡ some x
      → ⊥
  taken other name x labels e h k =
      let same : other ≡ name = (==_iff other name).0 e in
      let both : none ≡ some x = sym h ∙ ap (λ n. get n labels) same ∙ k in ground arith

  -- No statement changes a label that is there.
  gather_stmt-keeps :
      (s next : GatherState) (stmt : LowerStmt F) (name : ℕ) (x : RawLabelInfo)
      → gather_stmt lang s stmt ≡ ok next
      → get name s.labels ≡ some x
      → get name next.labels ≡ some x
  unfolding gather_stmt
  gather_stmt-keeps s next (LowerStmt.instr i) name x g h =
      let encoded =
        bind-inverse (substitute_dummy_args lang i >>= encode_args lang s.encoding_state) _ next
          g in
      ap (λ t. get name t.labels) (sym (ok-injective _ next encoded.1.1)) ∙ h
  gather_stmt-keeps s next (LowerStmt.label time other) name x g h =
      let entered = enter_label-inverse s next time other (get other s.labels) g in
      elim (Bool-cases (other == name)) [
        | inl e ↦ absurd (taken other name x s.labels e entered.0 h)
        | inr e ↦
            ap (get name) entered.1
            ∙ get-insert other name (record { time = time; offset = s.offset }) s.labels
            ∙ rw e h
      ]
  gather_stmt-keeps s next (LowerStmt.reg_alloc _) name x g h =
      ap (λ t. get name t.labels) (sym (ok-injective s next g)) ∙ h
  gather_stmt-keeps s next (LowerStmt.reg_free _) name x g h =
      ap (λ t. get name t.labels) (sym (ok-injective s next g)) ∙ h

  gather_from-keeps :
      (code : List (LowerStmt F)) (s : GatherState) (info : LabelInfoverse) (name : ℕ)
      (x : RawLabelInfo)
      → GathersAs lang s code info
      → get name s.labels ≡ some x
      → get name info.labels ≡ some x
  unfolding gather_from
  gather_from-keeps [] s info name x g h =
      ap (λ t. get name t.labels) (sym (ok-injective _ info g)) ∙ h
  gather_from-keeps (stmt ∷ code) s info name x g h =
      let first = gather_from-inverse lang s stmt code info g in
      ap (λ t. get name t.labels) (sym first.1.1.1.1)
      ∙ gather_from-keeps code first.0 first.1.1.0 name x first.1.1.1.0
          (gather_stmt-keeps s first.0 stmt name x first.1.0 h)

  -- The label that a statement enters.
  gather_label :
      (s next : GatherState) (time name : ℕ)
      → gather_stmt lang s (LowerStmt.label time name) ≡ ok next
      → get name next.labels ≡ some (record { time = time; offset = s.offset })
  unfolding gather_stmt
  gather_label s next time name g =
      let x : RawLabelInfo = record { time = time; offset = s.offset } in
      ap (get name) (enter_label-inverse s next time name (get name s.labels) g).1
      ∙ get-insert name name x s.labels
      ∙ rw (==_refl name) refl

  abbrev Placed : ℕ → ℕ → ℕ → LabelInfoverse → Type 0
  Placed i time name info =
      (offset : ℕ) × ((get name info.labels ≡ some (record { time = time; offset = offset }))
        × (get_elem? info.stmt_offsets i ≡ some offset))

  Placed-from :
      (code : List (LowerStmt F)) (i : ℕ) (s : GatherState) (info : LabelInfoverse) (time name : ℕ)
      → GathersAs lang s code info
      → get_elem? code i ≡ some (LowerStmt.label time name)
      → Placed i time name info
  Placed-from [] i s info time name g h = absurd (ground arith)
  Placed-from (stmt ∷ code) zero s info time name g h =
      let first = gather_from-inverse lang s stmt code info g in
      let is_label : stmt ≡ LowerStmt.label time name = ground arith in
      let entered =
        gather_label s first.0 time name (ap (gather_stmt lang s) (sym is_label) ∙ first.1.0) in
      (
        s.offset,
        (
          ap (λ t. get name t.labels) (sym first.1.1.1.1)
              ∙ gather_from-keeps code first.0 first.1.1.0 name _ first.1.1.1.0 entered,
          ap (λ t. get_elem? t.stmt_offsets 0) (sym first.1.1.1.1),
        ),
      )
  Placed-from (stmt ∷ code) (suc i) s info time name g h =
      let first = gather_from-inverse lang s stmt code info g in
      subst (Placed (suc i) time name) first.1.1.1.1
        (Placed-from code i first.0 first.1.1.0 time name first.1.1.1.0 h)

  -- A label that was gathered has the time of its statement and the offset at which the statement
  -- stands.
  pub gather_label_info-Placed :
      (code : List (LowerStmt F)) (initial_offset i : ℕ) (info : LabelInfoverse) (time name : ℕ)
      → gather_label_info lang initial_offset code ≡ ok info
      → get_elem? code i ≡ some (LowerStmt.label time name)
      → (offset : ℕ) × ((get name info.labels ≡ some (record { time = time; offset = offset }))
          × (get_elem? info.stmt_offsets i ≡ some offset))
  unfolding gather_label_info
  gather_label_info-Placed code initial_offset i info time name g h =
      Placed-from code i _ info time name g h
