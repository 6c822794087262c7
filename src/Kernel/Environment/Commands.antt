-- ===== src/Kernel/Environment/Commands.antt =====
-- kernel/environment.cpp: sequences of calls that declare something.
use lean.Base.{Bool, List, Option, [], some, ℕ, ◌>>=◌, ◌∷◌}
use lean.Kernel.Context.{Context}
use lean.Kernel.Environment.{Environment, mk_child, set_opaque}
use lean.Kernel.Environment.Declare.{
  add_definition, add_untyped_definition, add_theorem, add_axiom, add_var, add_builtin,
  add_builtin_set,
}
use lean.Kernel.Environment.Universe.{add_uvar_cnstr}
use lean.Kernel.Expr.{Expr}
use lean.Kernel.Level.{Level}
use lean.Kernel.Object.{ValueClasses}
use lean.Util.Name.{Name}

-- The calls, with the function that makes a child, which is the environment of the calls after it.
pub data Command : Type 0 where
  definition_command : Name → Expr → Expr → Bool → Command
  untyped_definition_command : Name → Expr → Bool → Command
  theorem_command : Name → Expr → Expr → Command
  axiom_command : Name → Expr → Command
  var_command : Name → Expr → Command
  builtin_command : ℕ → Command
  builtin_set_command : ℕ → Command
  opaque_command : Name → Bool → Command
  universe_command : Name → Level → Command
  child_command : Command

module _ (vs : ValueClasses) (normalize : Environment → Expr → Context → Option Expr) where
  abbrev pub run_command : Command → Environment → Option Environment
  run_command (definition_command n t v opaque) env = add_definition vs normalize env n t v opaque
  run_command (untyped_definition_command n v opaque) env =
      add_untyped_definition vs normalize env n v opaque
  run_command (theorem_command n t v) env = add_theorem vs normalize env n t v
  run_command (axiom_command n t) env = add_axiom vs normalize env n t
  run_command (var_command n t) env = add_var vs normalize env n t
  run_command (builtin_command v) env = add_builtin vs normalize env v
  run_command (builtin_set_command r) env = add_builtin_set vs normalize env r
  run_command (opaque_command n f) env = set_opaque env n f
  run_command (universe_command n l) env = add_uvar_cnstr env n l
  run_command child_command env = some (mk_child env)

  unfoldable pub run : List Command → Environment → Option Environment
  unfolding add_definition add_untyped_definition add_theorem add_axiom add_var add_builtin
      add_builtin_set set_opaque add_uvar_cnstr mk_child
  run [] env = some env
  run (c ∷ cs) env = do e ← run_command c env; run cs e
