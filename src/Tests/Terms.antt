-- ===== src/Tests/Terms.antt =====
-- Expressions at work: substitution under a binder, and a metavariable with a lifted context.
use lean.Base.{List, map, reverse, true, ◌↔◌, [], arith, none, refl, some, ℕ, ◌∷◌, ◌≡◌}
use lean.Kernel.Expr.{
  lambda_kind, Expr, var, app, lambda, constant, metavar, nil, cons, absent, empty, lift_entry,
}
use lean.Kernel.Expr.{LocalContext, inst_entry}
use lean.Kernel.Metavar.{apply_entries, apply_local_context}
use lean.Kernel.Meaning.ApplyContext.{meaning-apply_local_context}
use lean.Kernel.FreeVars.{has_free_vars, free_var_range}
use lean.Kernel.FreeVars.Lift.{lift_free_vars, lower_free_vars}
use lean.Kernel.Meaning.Lower.{shift-lower_free_vars}
use lean.Kernel.Abstract.{abstract}
use lean.Kernel.ExprEq.{expr_eq}
use lean.Kernel.ExprEq.Erasure.{erase}
use lean.Kernel.ExprEq.Complete.{expr_eq_iff}
use lean.Kernel.Meaning.Beta.{meaning-head_beta_reduce}
use lean.Kernel.Instantiate.{head_beta_reduce}
use lean.Kernel.Meaning.Abstract.{meaning-abstract}
use lean.Kernel.Meaning.Constants.{constant_of}
use lean.Kernel.Term.Abstract.{abstract_term}
use lean.Kernel.Instantiate.{instantiate}
use lean.Kernel.LocalContext.{add_lift_entry, add_inst_entry}
use lean.Kernel.Term.{tvar, tapp, tabs, shift, subst_term, Below}
use lean.Kernel.Meaning.{Assignment, meaning, meaning_context}
use lean.Kernel.Meaning.Context.{meaning_context-add_lift_entry, meaning_context-add_inst_entry}
use lean.Kernel.Meaning.Closed.{closed-Below}
use lean.Kernel.Meaning.Range.{free_var_range-Below}
use lean.Kernel.Meaning.Lift.{meaning-lift_free_vars}
use lean.Kernel.Meaning.Instantiate.{meaning-instantiate}
use lean.Util.Name.{Name, anonymous, num}

abbrev pub x : Name
x = num anonymous 1

-- Every metavariable stands for the variable 0.
abbrev zeros : Assignment
zeros n = tvar 0

abbrev ones : Name → ℕ
ones n = 1

ones-Below : (n : Name) → Below (ones n) (zeros n)
ones-Below n = omega arith

-- fun x : c, (#1 ?m[lift:0:2])
abbrev applied : Expr
applied = lambda x (constant x absent) (app (var 1) (cons (metavar x (lift_entry 0 2 empty)) nil))

meaning_context-add_lift_entry_example :
    meaning_context zeros (add_lift_entry (lift_entry 0 2 empty) 1 3) (tvar 0)
    ≡ shift 1 3 (meaning_context zeros (lift_entry 0 2 empty) (tvar 0))
meaning_context-add_lift_entry_example =
    meaning_context-add_lift_entry none x zeros (tvar 0) (lift_entry 0 2 empty) 1 3 3 (omega arith)
      (omega arith, omega arith, tt, tt)

meaning_context-add_inst_entry_example :
    meaning_context zeros (add_inst_entry (lift_entry 0 2 empty) 1 (var 4)) (tvar 0)
    ≡ subst_term 1 (meaning zeros (var 4)) (meaning_context zeros (lift_entry 0 2 empty) (tvar 0))
meaning_context-add_inst_entry_example =
    meaning_context-add_inst_entry none x zeros (tvar 0) (lift_entry 0 2 empty) 1 (var 4) 0
      (omega arith, omega arith, tt, tt)

meaning-lift_free_vars_example :
    meaning zeros (lift_free_vars none 0 3 applied) ≡ shift 0 3 (meaning zeros applied)
meaning-lift_free_vars_example =
    meaning-lift_free_vars none zeros 0 3 applied tt
      (omega arith, tt, (omega arith, ((omega arith, (omega arith, omega arith, tt, tt)), tt)))

-- fun x : c, (#1 #5)
abbrev spread : Expr
spread = lambda x (constant x absent) (app (var 1) (cons (var 5) nil))

shift-lower_free_vars_example :
    shift 1 2 (meaning zeros (lower_free_vars 3 2 spread)) ≡ meaning zeros spread
unfolding lean.Kernel.FreeVars.has_free_var lean.Kernel.FreeVars.in_range
shift-lower_free_vars_example =
    shift-lower_free_vars none zeros 3 2 spread tt (omega arith)
      (omega arith, tt, (omega arith, (omega arith, tt))) refl

-- ?m[inst:0 #3, lift:0:2] with #4 for ?m
abbrev context_example : LocalContext
context_example = inst_entry 0 (var 3) (lift_entry 0 2 empty)

fours : Assignment
fours n = tvar 4

meaning-apply_local_context_example :
    meaning fours (apply_local_context none (var 4) context_example)
    ≡ meaning fours (metavar x context_example)
unfolding meaning fours apply_entries
meaning-apply_local_context_example =
    meaning-apply_local_context none fours x (var 4) context_example tt
      ((5, omega arith, omega arith, λ o w. omega arith), (omega arith, tt)) refl

meaning-instantiate_example :
    meaning zeros (instantiate none 0 (var 7 ∷ []) applied)
    ≡ subst_term 0 (meaning zeros (var 7)) (meaning zeros applied)
meaning-instantiate_example =
    meaning-instantiate none zeros 0 100 (var 7) tt (omega arith) (λ o w. omega arith) applied
      (omega arith, tt, (omega arith, ((omega arith, (omega arith, omega arith, tt, tt)), tt)))

closed-Below_example : Below 0 (meaning zeros (lambda x (constant x absent) (var 0)))
unfolding lean.Kernel.FreeVars.has_free_vars_core
closed-Below_example =
    closed-Below none zeros (lambda x (constant x absent) (var 0)) (omega arith, tt, omega arith)
      refl

free_var_range-Below_example : Below (free_var_range (some ones) applied) (meaning zeros applied)
unfolding lean.Kernel.FreeVars.range_context
free_var_range-Below_example = free_var_range-Below ones zeros ones-Below applied (
  omega arith,
  tt,
  (omega arith, ((omega arith, (omega arith, omega arith, ground arith, tt)), tt)),
)

-- f x (fun y, x)
abbrev closed_app : Expr
closed_app = app (constant (num anonymous 2) absent) (
    cons (constant x absent)
      (cons (lambda (num anonymous 3) (constant x absent) (constant x absent)) nil))

-- `f` and `x` are replaced, the second below a binder too.
abbrev two_names : List Name
two_names = num anonymous 2 ∷ x ∷ []

meaning-abstract_example :
    meaning zeros (abstract (λ v. v) (map constant_of two_names) closed_app)
    ≡ abstract_term (reverse two_names) 0 (meaning zeros closed_app)
meaning-abstract_example =
    meaning-abstract (λ v. v) zeros two_names closed_app (tt, (tt, ((omega arith, tt, tt), tt)))
      (omega arith) (tt, (tt, ((tt, tt), tt)))

-- f x (fun y, x) becomes 1 0 (fun y, 1), where the 1 below the binder is the 0 outside.
abstract_term-closed_app :
    abstract_term (reverse two_names) 0 (meaning zeros closed_app)
    ≡ tapp (tapp (tvar 1) (tvar 0)) (tabs lambda_kind (tvar 0) (tvar 1))
unfolding abstract_term meaning lean.Util.Name.name_eq lean.Util.Name.stored_hash
abstract_term-closed_app = refl

expr_eq_iff_example :
    (expr_eq (λ v. v) closed_app applied ≡ true) ↔ (erase closed_app ≡ erase applied)
expr_eq_iff_example = expr_eq_iff (λ v. v) closed_app applied

meaning-head_beta_reduce_example :
    meaning zeros
      (head_beta_reduce none (app (lambda x (constant x absent) applied) (cons (var 7) nil)))
    ≡ subst_term 0 (meaning zeros (var 7)) (meaning zeros applied)
meaning-head_beta_reduce_example =
    meaning-head_beta_reduce none zeros 100 x (constant x absent) applied (var 7) tt (omega arith)
      (λ o w. omega arith)
      (omega arith, tt, (omega arith, ((omega arith, (omega arith, omega arith, tt, tt)), tt)))
