-- ===== src/Kernel.antt =====
-- The kernel, src/kernel.
pub mod Level
pub mod UniverseConstraints
pub mod Universes
pub mod Expr
pub mod Context
pub mod Conversion
pub mod TypeChecker
pub mod Object
pub mod Environment
pub mod Abstract
pub mod ExprEq
pub mod LocalContext
pub mod Metavar
pub mod ForEach
pub mod Replace
pub mod ReplaceFn
pub mod Term
pub mod FreeVars
pub mod Instantiate
pub mod Meaning
