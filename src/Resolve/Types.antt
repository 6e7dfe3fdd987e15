-- ===== src/Resolve/Types.antt =====
-- src/resolve/mod.rs: the types that are computed for definitions, which the parser makes sure of.
use truth.Base.{ℕ, Option, List, [], ◌∷◌}
use truth.Ast.Ops.{TypeKeyword}
use truth.Resolve.{RibStacks}
use truth.Resolve.Names.{
  Context, require_var_ty, require_return_ty, require_const_ty, signature_params,
  signature_from_func_ast, keyword_expr_ty,
}
use truth.Resolve.Ids.{var_ty_ids, return_ty_ids, const_ty_ids, params_ty_ids, signature_ids}
use truth.Resolve.Fresh.{Step, Step-none, Step-then}

module _ (ctx : Context) (S : RibStacks → Type 0) where
  pub require_var_ty-Step : (k : TypeKeyword) → Step ctx S S (var_ty_ids k) (require_var_ty k)
  unfolding require_var_ty truth.TypeCheck.Stmts.keyword_var_ty
  require_var_ty-Step TypeKeyword.void_keyword = λ v more s h. absurd h.0
  require_var_ty-Step TypeKeyword.int = Step-none ctx S []
  require_var_ty-Step TypeKeyword.float = Step-none ctx S []
  require_var_ty-Step TypeKeyword.string = Step-none ctx S []
  require_var_ty-Step TypeKeyword.var_keyword = Step-none ctx S []

  require_return_ty-Step : (k : TypeKeyword) → Step ctx S S (return_ty_ids k) (require_return_ty k)
  unfolding require_return_ty keyword_expr_ty
  require_return_ty-Step TypeKeyword.var_keyword = λ v more s h. absurd h.0
  require_return_ty-Step TypeKeyword.int = Step-none ctx S []
  require_return_ty-Step TypeKeyword.float = Step-none ctx S []
  require_return_ty-Step TypeKeyword.string = Step-none ctx S []
  require_return_ty-Step TypeKeyword.void_keyword = Step-none ctx S []

  pub require_const_ty-Step : (k : TypeKeyword) → Step ctx S S (const_ty_ids k) (require_const_ty k)
  unfolding require_const_ty truth.TypeCheck.Stmts.keyword_var_ty truth.Value.as_known_ty
  require_const_ty-Step TypeKeyword.void_keyword = λ v more s h. absurd h.0
  require_const_ty-Step TypeKeyword.var_keyword = λ v more s h. absurd h.0
  require_const_ty-Step TypeKeyword.int = Step-none ctx S []
  require_const_ty-Step TypeKeyword.float = Step-none ctx S []
  require_const_ty-Step TypeKeyword.string = Step-none ctx S []

  signature_params-Step :
      (params : List (TypeKeyword × Option ℕ))
      → Step ctx S S (params_ty_ids params) (signature_params params)
  unfolding signature_params params_ty_ids
  signature_params-Step [] = Step-none ctx S []
  signature_params-Step ((keyword, _) ∷ params) =
      Step-then ctx S S S (var_ty_ids keyword) (params_ty_ids params) (require_var_ty keyword)
        (signature_params params) (require_var_ty-Step keyword) (signature_params-Step params)

  pub signature_from_func_ast-Step :
      (keyword : TypeKeyword) (params : List (TypeKeyword × Option ℕ))
      → Step ctx S S (signature_ids keyword params) (signature_from_func_ast keyword params)
  unfolding signature_from_func_ast signature_ids
  signature_from_func_ast-Step keyword params =
      Step-then ctx S S S (params_ty_ids params) (return_ty_ids keyword) (signature_params params)
        (require_return_ty keyword) (signature_params-Step params) (require_return_ty-Step keyword)
