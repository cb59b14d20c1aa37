-- ===== src/Tenant/Slots.antt =====
-- Connection slots over any sequence of calls (internal/tenant/registry.go).
use cache_custom.Prelude.{ℕ, suc, ◌≡◌, ◌≤◌, ◌&&◌, List, [], ◌∷◌, leb, arith, Bool-cases, inl, inr}
use cache_custom.Prelude.Int.{pos, is_pos, pos_part}
use cache_custom.Tenant.{Tenant, acquire_conn, release_conn}

-- A session asks for a slot or gives one back.
pub data Call : Type 0 where
  acquire release : Call

unfoldable pub step : Call → Tenant → Tenant
unfolding acquire_conn release_conn
step acquire t = (acquire_conn t).1
step release t = release_conn t

unfoldable pub run : List Call → Tenant → Tenant
unfolding step
run [] t = t
run (c ∷ cs) t = run cs (step c t)

step_le :
    (limit : ℕ) (c : Call) (t : Tenant)
    → t.max_clients ≡ pos (suc limit)
    → t.conn_count ≤ suc limit
    → (((step c t).conn_count ≤ suc limit) × ((step c t).max_clients ≡ pos (suc limit)))
unfolding step acquire_conn release_conn
step_le limit acquire t e le =
    elim (Bool-cases (is_pos t.max_clients && leb (pos_part t.max_clients) t.conn_count)) [
      | inl full ↦ rw (full, step, acquire_conn) (le, e)
      | inr room ↦
          let below = rw e at room in rw (room, step, acquire_conn) (ground (arith, below), e)
    ]
step_le limit release t e le = (omega arith, e)

-- For a tenant with a positive limit of clients whose count is within it, the count stays within
-- it after any sequence of acquired and released slots.
pub slots_bounded :
    (limit : ℕ) (cs : List Call) (t : Tenant)
    → t.max_clients ≡ pos (suc limit)
    → t.conn_count ≤ suc limit
    → (run cs t).conn_count ≤ suc limit
unfolding run
slots_bounded limit [] t e le = le
slots_bounded limit (c ∷ cs) t e le =
    let (le', e') = step_le limit c t e le in slots_bounded limit cs (step c t) e' le'
