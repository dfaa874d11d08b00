-- ===== src/Registry.antt =====
-- glommio/src/task/registry.rs: the intrusive list of the tasks of an executor. A task is a number; a
-- link is the head of the registry or the `next` field of a task. `none` is a failed assertion.
pub mod Chain
pub mod Laws
pub mod Runs
pub mod Unlink
mod Tests
use glommio.Base.{ℕ, Bool, true, false, Option, none, some, is_some, if◌then◌else◌, update}

-- What `prev_link` points to.
pub data Link : Type 0 where
  head_link : Link
  next_of : ℕ → Link

-- `TaskRegistry` with the `prev_link` and `next` of all tasks.
pub record Registry : Type 0 where
  pub head : Option ℕ
  pub next : ℕ → Option ℕ
  pub prev_link : ℕ → Option Link
  pub shutting_down : Bool
  pub cleanup_active : Bool

pub new : Registry
new = record {
  head = none;
  next = λ i. none;
  prev_link = λ i. none;
  shutting_down = false;
  cleanup_active = false;
}

pub is_shutting_down : Registry → Bool
is_shutting_down r = r.shutting_down

pub request_shutdown : Registry → Registry
request_shutdown r = record r { shutting_down = true }

-- `(*next).prev_link = link`, if there is a next task.
pub point_back : Option ℕ → Link → (ℕ → Option Link) → ℕ → Option Link
point_back none link prev = prev
point_back (some i) link prev = update prev i (some link)

-- `*link = value`
pub write : Link → Option ℕ → Registry → Registry
write head_link value r = record r { head = value }
write (next_of i) value r = record r { next = update r.next i value }

-- The stores of `insert`, in its order.
pub link_in : Registry → ℕ → Registry
unfolding point_back
link_in r task =
    let head = r.head in
    let prev_link = update r.prev_link task (some head_link) in
    record r {
      head = some task;
      next = update r.next task head;
      prev_link = point_back head (next_of task) prev_link;
    }

pub insert : Registry → ℕ → Option Registry
unfolding link_in
insert r task = if is_some (r.prev_link task) then none else some (link_in r task)

-- The two fields of the task are cleared.
pub clear : ℕ → Registry → Registry
clear task r = record r { next = update r.next task none; prev_link = update r.prev_link task none }

pub unlink : Registry → ℕ → Link → Registry
unfolding write point_back clear
unlink r task link =
    let next = r.next task in
    let r = write link next r in
    clear task (record r { prev_link = point_back next link r.prev_link })

pub remove_by : Registry → ℕ → Option Link → Option Registry
unfolding unlink
remove_by r task none = none
remove_by r task (some link) = some (unlink r task link)

pub remove : Registry → ℕ → Option Registry
unfolding remove_by
remove r task = remove_by r task (r.prev_link task)
