-- ===== src/Kernel/Environment/Stored.antt =====
-- kernel/environment.cpp: what is known of each object that an environment holds.
use lean.Base.{List, Option, some, ◌++◌, ◌∷◌, ◌≡◌}
use lean.Kernel.Context.{Context}
use lean.Kernel.Environment.{Environment}
use lean.Kernel.Environment.Changes.{Changes, IsJustified}
use lean.Kernel.Environment.Commands.{Command, run, run_command}
use lean.Kernel.Expr.{Expr}
use lean.Kernel.Object.{Object, ValueClasses}

module _ (vs : ValueClasses) (normalize : Environment → Expr → Context → Option Expr) where
  -- The typing rules justified the object in an environment on the way from the first to the second.
  abbrev pub Between : Environment → Environment → Object → Type 0
  Between start env o =
      (e : Environment) × Changes vs normalize start e
      × Changes vs normalize e env
      × IsJustified vs normalize e o

  -- One of the calls, which all run without an exception, justified the object: `d` is the environment
  -- before this call, in which the calls before it end, and `f` the one after it.
  abbrev pub WasJustified : List Command → Environment → Object → Type 0
  WasJustified cs start o =
      (before : List Command) × (call : Command) × (after : List Command) × (cs
        ≡ before ++ call ∷ after)
      × (d : Environment) × (f : Environment) × (run vs normalize before start ≡ some d)
      × (run_command vs normalize call d ≡ some f)
      × Between d f o
