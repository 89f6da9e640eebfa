-- ===== src/Pipeline/Ops.antt =====
-- Interleavings: the statements that workers and the sweeper commit, in the order in which the
-- database commits them. Any worker may stand behind any operation, with an item that is long out
-- of date; the select of a sweep changes nothing, so a sweep is its update.
pub mod Effect
pub mod Runs
pub mod Progress
pub mod Terminal
use devsignal.Prelude.{ℕ, Bool, List, [], ◌∷◌}
use devsignal.Prelude.Int.{ℤ}
use devsignal.Pipeline.State.{State}
use devsignal.Pipeline.Table.{Table}
use devsignal.Pipeline.Queue.{Config, Item, Db, claim, advance, fail, release, requeue}

pub data Op : Type 0 where
  claims : (ℕ → Bool) → Db → State → Op
  advances : Item → Db → Op
  fails : Item → List ℕ → Db → Op
  releases : (ℕ → Bool) → List ℕ → Op
  requeues : List ℕ → Db → Op

module _ (cfg : Config) (overflow : ℤ) where
  unfoldable pub exec : Op → Table → Table
  exec (claims locked db state) t = (claim cfg locked db state t).0
  exec (advances it db) t = (advance it db t).0
  exec (fails it cause db) t = (fail cfg overflow it cause db t).0
  exec (releases up ids) t = release up ids t
  exec (requeues ids db) t = (requeue ids db t).0

  unfoldable pub run : List Op → Table → Table
  unfolding exec
  run [] t = t
  run (op ∷ ops) t = run ops (exec op t)
