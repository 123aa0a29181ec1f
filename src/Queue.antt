-- ===== src/Queue.antt =====
-- services/orchestrator/src/services/queue.ts: the queue of waiting runs, first in first out for
-- each user, with the index from a run to its user.
pub mod Lanes
pub mod Invariant
pub mod Removal
pub mod Positions
use minerva.Base.{
  ℕ, ◌-◌, String, ◌≡◌, refl, Bool, true, false, Option, none, some, List, [], ◌∷◌, ◌++◌, arith,
  ◌==◌, if◌then◌else◌, or_else, truthy, length, head?, index_of, remove_at,
}
use minerva.Dict.{Dict, get, set, delete}

pub record RunQueue : Type 0 where
  -- `queues`, from a user to its runs
  pub queues : Dict (List String)
  -- `runToUser`
  pub run_to_user : Dict String

abbrev pub empty : RunQueue
empty = record { queues = []; run_to_user = [] }

unfoldable pub enqueue : RunQueue → String → String → RunQueue × ℕ
enqueue q run_id user_id =
    let queue = or_else (get user_id q.queues) [] ++ run_id ∷ [] in
    (
      record {
        queues = set user_id queue q.queues;
        run_to_user = set run_id user_id q.run_to_user;
      },
      length queue - 1,
    )

-- What both `dequeue` and `remove` do with the runs that are left: an empty queue is dropped.
unfoldable pub put_back : String → List String → Dict (List String) → Dict (List String)
put_back user_id [] m = delete user_id m
put_back user_id (r ∷ rs) m = set user_id (r ∷ rs) m

unfoldable pub shift : RunQueue → String → Option (List String) → RunQueue × Option String
unfolding put_back
shift q user_id none = (q, none)
shift q user_id (some []) = (q, none)
shift q user_id (some (r ∷ rs)) =
    (record { queues = put_back user_id rs q.queues; run_to_user = delete r q.run_to_user }, some r)

unfoldable pub dequeue : RunQueue → String → RunQueue × Option String
unfolding shift
dequeue q user_id = shift q user_id (get user_id q.queues)

unfoldable pub peek : RunQueue → String → Option String
peek q user_id = elim (get user_id q.queues) [ none ↦ none | some queue ↦ head? queue ]

-- The splice of `remove`, once the user and the queue are known; `none` is `index === -1`.
unfoldable pub splice : RunQueue → String → String → List String → Option ℕ → RunQueue × Bool
unfolding put_back
splice q run_id user_id queue none = (q, false)
splice q run_id user_id queue (some i) = (
  record {
    queues = put_back user_id (remove_at i queue) q.queues;
    run_to_user = delete run_id q.run_to_user;
  },
  true,
)

unfoldable pub remove_from : RunQueue → String → Option String → RunQueue × Bool
unfolding splice
remove_from q run_id none = (q, false)
remove_from q run_id (some user_id) = elim (get user_id q.queues) [
  | none ↦ (q, false)
  | some queue ↦ splice q run_id user_id queue (index_of run_id queue)
]

unfoldable pub remove : RunQueue → String → RunQueue × Bool
unfolding remove_from
remove q run_id = remove_from q run_id (truthy (get run_id q.run_to_user))

position_of : RunQueue → String → Option String → Option ℕ
position_of q run_id none = none
position_of q run_id (some user_id) = elim (get user_id q.queues) [
  | none ↦ none
  | some queue ↦ index_of run_id queue
]

unfoldable pub get_position : RunQueue → String → Option ℕ
unfolding position_of
get_position q run_id = position_of q run_id (truthy (get run_id q.run_to_user))

unfoldable pub get_length : RunQueue → String → ℕ
get_length q user_id = elim (get user_id q.queues) [ none ↦ 0 | some queue ↦ length queue ]

unfoldable pub clear : RunQueue → RunQueue
clear q = empty

unfoldable pub get_user_runs : RunQueue → String → List String
get_user_runs q user_id = or_else (get user_id q.queues) []
