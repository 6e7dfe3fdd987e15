-- ===== src/Lower/Labels/Gather.antt =====
-- What a first encoding that succeeds says of each statement.
use truth.Base.{ℕ, ◌+◌, ◌≡◌, refl, sym, ap, ◌∙◌, arith, Option, none, some, List, ◌∷◌}
use truth.Base.Run.{
  Run, ok, err, panic, out_of_fuel, ◌>>=◌, ok-injective, IsOk, ok-IsOk, bind-inverse,
}
use truth.Lower.{RawInstr, LowerArgs, LowerInstr, LowerStmt, Language}
use truth.Lower.Encode.{ArgEncodingState, encode_args}
use truth.Lower.Labels.{
  RawLabelInfo, LabelInfoverse, GatherState, with_error, recover, substitute_args,
  substitute_dummy_args, instr_size, enter_label, gather_stmt, gather_from,
}

with_error-IsOk : {A : Type 0} (m : Run A) → IsOk (with_error m) → ⊥
unfolding with_error
with_error-IsOk (ok _) h = h
with_error-IsOk err h = h
with_error-IsOk panic h = h
with_error-IsOk out_of_fuel h = h

recover-inverse :
    {A : Type 0} (m : Run GatherState) (s : GatherState) (f : GatherState → Run A) (r : A)
    → recover m s f ≡ ok r
    → (next : GatherState) × ((m ≡ ok next) × (f next ≡ ok r))
unfolding recover
recover-inverse (ok next) s f r e = (next, (refl, e))
recover-inverse err s f r e = absurd (with_error-IsOk (f s) (ok-IsOk (with_error (f s)) r e))
recover-inverse panic s f r e = absurd (ground arith)
recover-inverse out_of_fuel s f r e = absurd (ground arith)

module _ {F : Type 0} (lang : Language F) where
  abbrev pub GathersAs : GatherState → List (LowerStmt F) → LabelInfoverse → Type 0
  GathersAs s code info = gather_from lang s code ≡ ok info

  -- What the first encoding of a list of statements says of its parts.
  pub gather_from-inverse :
      (s : GatherState) (stmt : LowerStmt F) (code : List (LowerStmt F)) (info : LabelInfoverse)
      → GathersAs s (stmt ∷ code) info
      → (next : GatherState) × ((gather_stmt lang s stmt ≡ ok next)
          × ((rest : LabelInfoverse) × (GathersAs next code rest
                × (record { stmt_offsets = s.offset ∷ rest.stmt_offsets; labels = rest.labels }
                    ≡ info))))
  unfolding gather_from
  gather_from-inverse s stmt code info h =
      let rest =
        bind-inverse (recover (gather_stmt lang s stmt) s (λ next. gather_from lang next code)) _
          info h in
      let next =
        recover-inverse (gather_stmt lang s stmt) s (λ next. gather_from lang next code) rest.0
          rest.1.0 in
      (next.0, (next.1.0, (rest.0, (next.1.1, ok-injective _ _ rest.1.1))))

  -- A statement that writes nothing leaves the offset and the state.
  abbrev pub Keeps : GatherState → GatherState → Type 0
  Keeps s next = (next.offset ≡ s.offset) × (next.encoding_state ≡ s.encoding_state)

  pub enter_label-Keeps :
      (s next : GatherState) (time name : ℕ) (entry : Option RawLabelInfo)
      → enter_label lang s time name entry ≡ ok next
      → Keeps s next
  unfolding enter_label
  enter_label-Keeps s next time name (some _) h = absurd (ok-IsOk err next h)
  enter_label-Keeps s next time name none h =
      let e = ok-injective _ _ h in (sym (ap (λ x. x.offset) e), sym (ap (λ x. x.encoding_state) e))

  -- The first encoding of an instruction.
  pub gather_instr-inverse :
      (s next : GatherState) (i : LowerInstr F) (dummies : LowerArgs F)
      → substitute_args lang i.args ≡ ok dummies
      → gather_stmt lang s (LowerStmt.instr i) ≡ ok next
      → (r : RawInstr × ArgEncodingState) × ((encode_args lang s.encoding_state
              (record i { args = dummies })
            ≡ ok r)
          × ((next.offset ≡ s.offset + instr_size lang r.0) × (next.encoding_state ≡ r.1)))
  unfolding gather_stmt substitute_dummy_args
  gather_instr-inverse s next i dummies h g =
      let first =
        bind-inverse (encode_args lang s.encoding_state (record i { args = dummies })) _ next (
          sym (
            ap
              (λ m.
                m
                >>= (λ args. ok (record i { args = args }))
                >>= encode_args lang s.encoding_state
                >>= (λ r. ok (record {
                  offset = s.offset + instr_size lang r.0;
                  labels = s.labels;
                  encoding_state = r.1;
                })))
              h)
          ∙ g) in
      let e = ok-injective _ _ first.1.1 in
      (first.0, (first.1.0, (sym (ap (λ x. x.offset) e), sym (ap (λ x. x.encoding_state) e))))
