-- ===== src/Network/Server/Attended/Turns.antt =====
-- How the turns of the loop and of the workers keep each connection cared for.
use c_http_1_1_server.Base.{
  ℕ, ◌≡◌, refl, sym, ap, ◌∙◌, arith, Bool, true, false, ◌||◌, ◌==◌, ==_iff, List, [], ◌∷◌, ◌++◌,
  Option, none, some, if◌then◌else◌, inl, inr, Bool-cases,
}
use c_http_1_1_server.Base.FdMap.{find_fd, find-put_fd}
use c_http_1_1_server.Network.Connection.{Connection}
use c_http_1_1_server.Network.EventLoop.{EventLoop, Task, Interest, is_running}
use c_http_1_1_server.Network.EventLoop.Rounds.{
  modify_epoll, handle_client_read, handle_client_write, submit_found,
}
use c_http_1_1_server.Network.Server.{disarmed, put_found, put_back}
use c_http_1_1_server.Network.Server.Attended.{AllAttended, excused, has_task, fd_of}

abbrev modified : Bool → Interest → Option Interest → Option Interest
modified same i none = none
modified same i (some old) = if same then some i else some old

find-modify_epoll :
    (k j : ℕ) (i : Interest) (l : EventLoop)
    → find_fd j (modify_epoll k i l).interest ≡ modified (k == j) i (find_fd j l.interest)
unfolding modify_epoll
find-modify_epoll k j i l = ground (
  arith,
  find-put_fd k j i l.interest,
  ==_iff k j,
  λ (same : k ≡ j). ap (λ n. find_fd n l.interest) same,
)

-- The rest of the loop stays as it is.
modify_keeps :
    (k : ℕ) (i : Interest) (l : EventLoop)
    → (l.state ≡ (modify_epoll k i l).state)
      × (l.connections ≡ (modify_epoll k i l).connections)
      × (l.submitted ≡ (modify_epoll k i l).submitted)
unfolding modify_epoll
modify_keeps k i l = ground arith

pub has_task-append :
    (j : ℕ) (before after : List Task)
    → has_task j (before ++ after) ≡ (has_task j before || has_task j after)
has_task-append j [] after = refl
has_task-append j (t ∷ before) after = ground (arith, has_task-append j before after)

has_task-take :
    (j : ℕ) (before : List Task) (t : Task) (after : List Task)
    → has_task j (before ++ t ∷ after) ≡ (fd_of t == j || has_task j (before ++ after))
has_task-take j before t after =
    ground (arith, has_task-append j before (t ∷ after), has_task-append j before after)

-- What else waits for a descriptor may be named in another way.
pub more-Attended :
    (p q : ℕ → Bool) (l : EventLoop)
    → ((j : ℕ) → p j ≡ true → q j ≡ true)
    → AllAttended p l
    → AllAttended q l
more-Attended p q l imp a r j c h = ground (arith, imp j, a r j c h)

module _ (also : ℕ → Bool) where
  -- Arming the descriptor ends the excuse for it.
  pub arm-Attended :
      (fd : ℕ) (i : Interest) (l : EventLoop)
      → (i.epoll_in || i.epoll_out) ≡ true
      → AllAttended (excused fd also) l
      → AllAttended also (modify_epoll fd i l)
  arm-Attended fd i l armed a r j c h =
      let (same_state, same_table, same_tasks) = modify_keeps fd i l in
      let cared = a (ap is_running same_state ∙ r) j c (ap (find_fd j) same_table ∙ h) in
      ground (arith, find-modify_epoll fd j i l, ap (has_task j) same_tasks, cared)

  pub disarm_one-Attended :
      (fd : ℕ) (l : EventLoop)
      → AllAttended also l
      → AllAttended (excused fd also) (modify_epoll fd disarmed l)
  disarm_one-Attended fd l a r j c h =
      let (same_state, same_table, same_tasks) = modify_keeps fd disarmed l in
      let cared = a (ap is_running same_state ∙ r) j c (ap (find_fd j) same_table ∙ h) in
      ground (arith, find-modify_epoll fd j disarmed l, ap (has_task j) same_tasks, cared)

  -- A task for the descriptor ends the excuse for it.
  submit_found-Attended :
      (t : Task) (l : EventLoop)
      → AllAttended (excused (fd_of t) also) l
      → AllAttended also (submit_found t l (find_fd (fd_of t) l.connections))
  submit_found-Attended t l a = submitted (find_fd (fd_of t) l.connections) refl
    where
      submitted :
          (o : Option Connection)
          → find_fd (fd_of t) l.connections ≡ o
          → AllAttended also (submit_found t l o)
      submitted none e = λ r j c h. ground (
        arith,
        a r j c h,
        ==_iff (fd_of t) j,
        λ (same : fd_of t ≡ j). ap (λ k. find_fd k l.connections) same,
      )
      submitted (some d) e =
          λ r j c h. ground (arith, a r j c h, has_task-append j l.submitted (t ∷ []))

  -- Taking a task out of the pool excuses its descriptor.
  pub take-Attended :
      (before : List Task) (t : Task) (after : List Task) (l : EventLoop)
      → l.submitted ≡ before ++ t ∷ after
      → AllAttended also l
      → AllAttended (excused (fd_of t) also) (record l { submitted = before ++ after })
  take-Attended before t after l e a r j c h =
      ground (arith, a r j c h, ap (has_task j) e, has_task-take j before t after)

  pub put_back-Attended :
      (fd : ℕ) (c : Connection) (l : EventLoop)
      → AllAttended also l
      → AllAttended also (put_back fd c l)
  unfolding put_back
  put_back-Attended fd c l a = put (find_fd fd l.connections) refl
    where
      put :
          (o : Option Connection)
          → find_fd fd l.connections ≡ o
          → AllAttended also (put_found fd c l o)
      put none e = a
      put (some old) e = λ r j d h. elim (Bool-cases (fd == j)) [
        | inl same ↦ a r j old (ap (λ k. find_fd k l.connections) (sym ((==_iff fd j).0 same)) ∙ e)
        | inr differ ↦ a r j d (
            sym (
              find-put_fd fd j c l.connections
              ∙ ap (λ b. if b then some c else find_fd j l.connections) differ)
            ∙ h)
      ]

  pub if_running-Attended :
      (l x : EventLoop)
      → AllAttended also x
      → AllAttended also (if is_running l.state then x else l)
  if_running-Attended l x a = branch (is_running l.state) refl
    where
      branch : (b : Bool) → is_running l.state ≡ b → AllAttended also (if b then x else l)
      branch true e = a
      branch false e = λ r. ground (arith, e, r)

  pub read-Attended :
      (fd : ℕ) (l : EventLoop)
      → AllAttended (excused fd also) l
      → AllAttended also (handle_client_read fd l)
  unfolding handle_client_read
  read-Attended fd l a = if_running-Attended l _ (submit_found-Attended (Task.client_read fd) l a)

  pub write-Attended :
      (fd : ℕ) (l : EventLoop)
      → AllAttended (excused fd also) l
      → AllAttended also (handle_client_write fd l)
  unfolding handle_client_write
  write-Attended fd l a = submit_found-Attended (Task.client_write fd) l a
