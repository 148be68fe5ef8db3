-- ===== src/Peers/Examples.antt =====
-- runtime/peer.go: a worker connects, and connects again before its old connection is noticed to be gone.
use open_kael.Catalog.{without_those}
use open_kael.Prelude.{◌≡◌, ◌↔◌, ℕ, true, some, refl, lookup, false, arith, String}
use open_kael.Peers.Connected.{peer_authorized_iff, connected_iff}
use open_kael.Prelude.Text.{◌<>◌}
use open_kael.Peers.{
  peer_authorized, opens, opened, one_step, no_step, new_peer_hub, closed, PeerHub, HubRun,
  connected,
}

abbrev once : PeerHub
once = opened 1 "worker" new_peer_hub

abbrev twice : PeerHub
twice = opened 2 "worker" once

-- The end of the old connection takes the new one out of the map.
reconnected_lem :
    (connected "worker" (closed 1 "worker" twice) ≡ false)
    × ((closed 1 "worker" twice).open_connections 2 ≡ some "worker")
unfolding lookup without_those
reconnected_lem = (refl, refl)

alone-once :
    (m n : ℕ) (id : String)
    → once.open_connections m ≡ some id
    → once.open_connections n ≡ some id
    → m ≡ n
alone-once m n id h k = ground arith

once-HubRun : HubRun true once
once-HubRun = one_step no_step (opens 1 "worker" refl refl) (λ _. alone-once)

connected_iff_example :
    (connected "worker" once ≡ true) ↔ ((n : ℕ) × (once.open_connections n ≡ some "worker"))
connected_iff_example = connected_iff "worker" once-HubRun

peer_authorized_iff_example :
    (peer_authorized "Bearer abc" "abc" ≡ true) ↔ ("Bearer abc" ≡ "Bearer " <> "abc")
peer_authorized_iff_example = peer_authorized_iff "Bearer abc" "abc"
