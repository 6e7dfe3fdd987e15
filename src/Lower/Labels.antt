-- ===== src/Lower/Labels.antt =====
-- src/llir/lower.rs: the offsets of labels are found with a first encoding, labels become numbers, and
-- the instructions are encoded for a second time. Information for debuggers is left out.
pub mod SameSize
pub mod Versions
pub mod Gather
pub mod Layout
pub mod Positions
use truth.Base.{
  ℕ, ◌+◌, ◌%◌, ◌^◌, Bool, true, Option, none, some, List, [], ◌∷◌, length, ◌==◌, if◌then◌else◌,
}
use truth.Base.Run.{Run, ok, err, panic, out_of_fuel, ◌>>=◌}
use truth.Base.Assoc.{Assoc, get, insert}
use truth.Value.{ScalarValue}
use truth.Lower.{
  SimpleArg, RawInstr, LowerArg, raw, diff_switch, local, label, time_of, LowerArgs, known, unknown,
  LowerInstr, LowerStmt, Language, immediate,
}
use truth.Lower.Encode.{ArgEncodingState, encode_args}

pub record RawLabelInfo : Type 0 where
  pub time : ℕ
  pub offset : ℕ

-- The offset of each statement, and the labels.
pub record LabelInfoverse : Type 0 where
  pub stmt_offsets : List ℕ
  pub labels : Assoc RawLabelInfo

-- The variables of the loop of `gather_label_info`.
pub record GatherState : Type 0 where
  pub offset : ℕ
  pub labels : Assoc RawLabelInfo
  pub encoding_state : ArgEncodingState

-- `collect_with_recovery`: the loop goes on after an error, and ends in one.
unfoldable pub with_error {ℓ} : {A : Type ℓ} → Run A → Run A
with_error (ok _) = err
with_error m = m

unfoldable pub recover :
    {A : Type 0} → Run GatherState → GatherState → (GatherState → Run A) → Run A
unfolding with_error
recover (ok next) s f = f next
recover err s f = with_error (f s)
recover panic s f = panic
recover out_of_fuel s f = out_of_fuel

module _ {F : Type 0} (lang : Language F) where
  unfoldable pub substitute_dummy_arg : LowerArg F → Run (LowerArg F)
  unfolding immediate
  substitute_dummy_arg (label _) = ok (raw (immediate (ScalarValue.int 0)))
  substitute_dummy_arg (time_of _) = ok (raw (immediate (ScalarValue.int 0)))
  substitute_dummy_arg (local _ _) = ok (raw (record { value = ScalarValue.int 0; is_reg = true }))
  substitute_dummy_arg (diff_switch _) = panic
  substitute_dummy_arg (raw a) = ok (raw a)

  unfoldable pub substitute_each : List (LowerArg F) → Run (List (LowerArg F))
  unfolding substitute_dummy_arg
  substitute_each [] = ok []
  substitute_each (a ∷ args) =
      substitute_dummy_arg a >>= (λ b. substitute_each args >>= (λ rest. ok (b ∷ rest)))

  unfoldable pub substitute_args : LowerArgs F → Run (LowerArgs F)
  unfolding substitute_each
  substitute_args (unknown blob) = ok (unknown blob)
  substitute_args (known args) = substitute_each args >>= (λ rest. ok (known rest))

  unfoldable pub substitute_dummy_args : LowerInstr F → Run (LowerInstr F)
  unfolding substitute_args
  substitute_dummy_args instr =
      substitute_args instr.args >>= (λ args. ok (record instr { args = args }))

  unfoldable pub instr_size : RawInstr → ℕ
  instr_size r = lang.instr_header_size + length r.args_blob

  -- `None` is a vacant entry; an occupied one is an error.
  unfoldable pub enter_label : GatherState → ℕ → ℕ → Option RawLabelInfo → Run GatherState
  unfolding insert
  enter_label s time name (some _) = err
  enter_label s time name none =
      ok (record s { labels = insert name (record { time = time; offset = s.offset }) s.labels })

  unfoldable pub gather_stmt : GatherState → LowerStmt F → Run GatherState
  unfolding substitute_dummy_args encode_args instr_size enter_label get
  gather_stmt s (LowerStmt.instr i) =
      substitute_dummy_args i >>= encode_args lang s.encoding_state >>= (λ r.
        ok (record { offset = s.offset + instr_size r.0; labels = s.labels; encoding_state = r.1 }))
  gather_stmt s (LowerStmt.label time name) = enter_label s time name (get name s.labels)
  gather_stmt s (LowerStmt.reg_alloc _) = ok s
  gather_stmt s (LowerStmt.reg_free _) = ok s

  unfoldable pub gather_from : GatherState → List (LowerStmt F) → Run LabelInfoverse
  unfolding gather_stmt recover
  gather_from s [] = ok (record { stmt_offsets = []; labels = s.labels })
  gather_from s (stmt ∷ code) =
      recover (gather_stmt s stmt) s (λ next. gather_from next code) >>= (λ info.
        ok (record { stmt_offsets = s.offset ∷ info.stmt_offsets; labels = info.labels }))

  unfoldable pub gather_label_info : ℕ → List (LowerStmt F) → Run LabelInfoverse
  unfolding gather_from
  gather_label_info initial_offset code =
      gather_from (record { offset = initial_offset; labels = []; encoding_state = none }) code

  -- A label that is not defined is an error. The offset is cast to `i32`.
  unfoldable pub encode_offset : ℕ → Option RawLabelInfo → Run (LowerArg F)
  unfolding immediate
  encode_offset cur_offset none = err
  encode_offset cur_offset (some info) =
      ok (raw (immediate (ScalarValue.int (lang.encode_label cur_offset info.offset % 2 ^ 32))))

  unfoldable pub encode_time : Option RawLabelInfo → Run (LowerArg F)
  unfolding immediate
  encode_time none = err
  encode_time (some info) = ok (raw (immediate (ScalarValue.int info.time)))

  unfoldable pub encode_label_arg : Assoc RawLabelInfo → ℕ → LowerArg F → Run (LowerArg F)
  unfolding encode_offset encode_time get
  encode_label_arg labels cur_offset (label name) = encode_offset cur_offset (get name labels)
  encode_label_arg labels cur_offset (time_of name) = encode_time (get name labels)
  encode_label_arg labels cur_offset (raw a) = ok (raw a)
  encode_label_arg labels cur_offset (local def storage_ty) = ok (local def storage_ty)
  encode_label_arg labels cur_offset (diff_switch cases) = ok (diff_switch cases)

  unfoldable pub encode_label_args :
      Assoc RawLabelInfo → ℕ → List (LowerArg F) → Run (List (LowerArg F))
  unfolding encode_label_arg
  encode_label_args labels cur_offset [] = ok []
  encode_label_args labels cur_offset (a ∷ args) =
      encode_label_arg labels cur_offset a
      >>= (λ b. encode_label_args labels cur_offset args >>= (λ rest. ok (b ∷ rest)))

  unfoldable pub encode_instr_labels : Assoc RawLabelInfo → ℕ → LowerArgs F → Run (LowerArgs F)
  unfolding encode_label_args
  encode_instr_labels labels cur_offset (unknown blob) = ok (unknown blob)
  encode_instr_labels labels cur_offset (known args) =
      encode_label_args labels cur_offset args >>= (λ rest. ok (known rest))

  unfoldable pub encode_stmt_labels : Assoc RawLabelInfo → ℕ → LowerStmt F → Run (LowerStmt F)
  unfolding encode_instr_labels
  encode_stmt_labels labels cur_offset (LowerStmt.instr i) =
      encode_instr_labels labels cur_offset i.args
      >>= (λ args. ok (LowerStmt.instr (record i { args = args })))
  encode_stmt_labels labels cur_offset stmt = ok stmt

  -- The offsets are as many as the statements; a missing one is a panic.
  unfoldable pub encode_each_stmt :
      Assoc RawLabelInfo → List ℕ → List (LowerStmt F) → Run (List (LowerStmt F))
  unfolding encode_stmt_labels
  encode_each_stmt labels offsets [] = ok []
  encode_each_stmt labels [] (stmt ∷ code) = panic
  encode_each_stmt labels (cur_offset ∷ offsets) (stmt ∷ code) =
      encode_stmt_labels labels cur_offset stmt
      >>= (λ encoded. encode_each_stmt labels offsets code >>= (λ rest. ok (encoded ∷ rest)))

  unfoldable pub encode_labels : LabelInfoverse → List (LowerStmt F) → Run (List (LowerStmt F))
  unfolding encode_each_stmt
  encode_labels info code =
      let encoded = encode_each_stmt info.labels info.stmt_offsets code in
      if length code == length info.stmt_offsets then encoded else panic

  -- `expect("we encoded this successfully before!")`
  unfoldable pub expect_encoded : {A : Type 0} → Run A → Run A
  expect_encoded err = panic
  expect_encoded m = m

  -- The second encoding.
  unfoldable pub emit_from : ArgEncodingState → List (LowerStmt F) → Run (List RawInstr)
  unfolding expect_encoded encode_args
  emit_from state [] = ok []
  emit_from state (LowerStmt.instr i ∷ code) =
      expect_encoded (encode_args lang state i)
      >>= (λ r. emit_from r.1 code >>= (λ rest. ok (r.0 ∷ rest)))
  emit_from state (_ ∷ code) = emit_from state code

  -- The end of `lower_sub_ast_to_instrs`, from the labels on.
  unfoldable pub assemble : List (LowerStmt F) → Run (List RawInstr)
  unfolding gather_label_info encode_labels emit_from
  assemble code = gather_label_info 0 code >>= (λ info. encode_labels info code >>= emit_from none)
