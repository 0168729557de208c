-- ===== src/Base/Select.antt =====
-- `tokio::select!` over two futures, and the end of a spawned task.
use Prim.Native.String.{String}
use package.kubernetes_identity_fede.Base.Results.{Result, ok, err}

-- Both are pending, or the one that is ready first has its value.
pub data Select (A B : Type 0) : Type 0 where
  pending : Select A B
  first : A → Select A B
  second : B → Select A B

-- The value of a `JoinHandle`: an error of tokio for a task that has panicked, or the task's result.
abbrev pub Join : Type 0
Join = Result (Result (Unit {0}) String) String

-- `result??`
abbrev pub joined : Join → Result (Unit {0}) String
joined (ok result) = result
joined (err e) = err e
