-- ===== src/Tunnels/Orphans/Tests.antt =====
-- Runs of the reaping of proxy cores.
use katacomb_vpn.Prelude.{
  ℕ, ◌≡◌, refl, inl, inr, Bool, true, none, some, [], ◌∷◌, ◌++◌, arith, ◌==◌, if◌then◌else◌, filter,
  Mem,
}
use katacomb_vpn.Guard.Text.{codes}
use katacomb_vpn.Tunnels.Orphans.{
  StateFile, missing, holds, object, Process, Processes, sigterm, sigkill, other_pid,
  read_proxy_child_records, write_proxy_child_records, parse_entry, reap_ours, reap_records,
  reap_orphaned_proxy_children, track_process, untrack_proxy_child,
}
use katacomb_vpn.Tunnels.Orphans.Reaping.{IsOurs, reap_orphaned_proxy_children-IsOurs}
use katacomb_vpn.Tunnels.Orphans.Records.{untrack_proxy_child-track_process}

abbrev core : Process
core = record { exe_link = codes "/opt/xray"; words = codes "xray" ∷ codes "/tmp/a.json" ∷ [] }

-- The core has the number 7; 8 was taken by another program since.
abbrev system : Processes
system n =
    if n == 7
    then some core
    else if n == 8
    then some (record { exe_link = codes "/bin/vi"; words = codes "vi" ∷ [] })
    else none

abbrev left_behind : StateFile
left_behind = holds (
    object (some 7) (some (codes "/opt/xray")) (some (codes "/tmp/a.json"))
    ∷ object (some 8) (some (codes "/opt/xray")) (some (codes "/tmp/b.json"))
    ∷ object (some 1) (some (codes "/opt/xray")) (some (codes "/tmp/c.json"))
    ∷ [])

abbrev stays : ℕ → ℕ → Bool
stays poll pid = true

reaped :
    (reap_orphaned_proxy_children true system stays 3 left_behind).signals
    ≡ sigterm 7 ∷ sigkill 7 ∷ []
unfolding parse_entry reap_ours reap_records
reaped = refl

file_spent : (reap_orphaned_proxy_children true system stays 3 left_behind).state_file ≡ missing
unfolding parse_entry reap_ours reap_records write_proxy_child_records
file_spent = refl

reap_orphaned_proxy_children-IsOurs_example :
    IsOurs system left_behind 7
    × Mem (sigterm 7) (reap_orphaned_proxy_children true system stays 3 left_behind).signals
unfolding parse_entry reap_ours reap_records
reap_orphaned_proxy_children-IsOurs_example =
    reap_orphaned_proxy_children-IsOurs true system stays 3 left_behind (sigkill 7) (inr (inl refl))

untrack_proxy_child-track_process_example :
    (read_proxy_child_records (track_process true 9 (codes "/tmp/d.json") (some core) left_behind)
      ≡ filter (other_pid 9) (read_proxy_child_records left_behind)
        ++ (record { pid = 9; exe = codes "/opt/xray"; config_file = codes "/tmp/d.json" } ∷ []))
    × (read_proxy_child_records (
          untrack_proxy_child true 9
            (track_process true 9 (codes "/tmp/d.json") (some core) left_behind))
        ≡ filter (other_pid 9) (read_proxy_child_records left_behind))
untrack_proxy_child-track_process_example =
    untrack_proxy_child-track_process 9 (codes "/tmp/d.json") core left_behind
      (omega arith, refl, refl)
