-- ===== src/Client/Tests.antt =====
-- The theorems on the client, at the sample server.
use rpmem.Base.{none, if◌then◌else◌, ◌+◌, ◌≡◌, refl, arith, some, [], ◌==◌, if◌then◌else◌}
use rpmem.Protocol.{zeroed, zeroed-IsCmd}
use rpmem.Protocol.Spec.{Response, pack_response}
use rpmem.Protocol.Spec.{ResponseFits, kind, same_kind, unpack_response}
use rpmem.Protocol.RoundTrip.{unpack-pack_response}
use rpmem.Machine.{stuck, After, Object, creations, destructions}
use rpmem.Client.{fresh_file, rpmem_map, wait_connect, close_file, open_file}
use rpmem.Client.Memory.{Mapping, rpmem_map_balances}
use rpmem.Client.Connecting.{wait_connect_hangs}
use rpmem.Client.Closing.{torn_down, close_file_destroys}
use rpmem.Client.OpenFile.{open_file_balances}
use rpmem.Client.Samples.{world, file, map_world}

carried :
    (r : Response)
    → ResponseFits r
    → unpack_response (kind r) (pack_response r zeroed)
      ≡ (if same_kind (kind r) (kind r) then some r else none)
carried r fits = unpack-pack_response (kind r) r zeroed zeroed-IsCmd fits

rpmem_map_balances_example : After (Mapping map_world 4096 []) (rpmem_map map_world 2 4096 file [])
rpmem_map_balances_example = rpmem_map_balances map_world 4096 [] 2 file

wait_connect_hangs_example : wait_connect map_world 5 fresh_file [] ≡ stuck
wait_connect_hangs_example =
    wait_connect_hangs map_world 5 fresh_file [] refl
      (record { got = refl; event = refl; no_qp = λ e. omega arith })

close_file_destroys_example :
    After
      (λ ret _ ds. (ret ≡ 0) × (destructions Object.mr ds ≡ 0 + torn_down Object.mr))
      (close_file (world (Response.closing 0)) 2 100 file [])
close_file_destroys_example =
    close_file_destroys (world (Response.closing 0)) 2 100 Object.mr file []

open_file_balances_example :
    After
      (λ r _ ds.
        creations map_world Object.cm_id ds + 0
        ≡ 0 + destructions Object.cm_id ds + (if r == 0 then 0 else 1))
      (open_file map_world 2 100 fresh_file [])
open_file_balances_example =
    open_file_balances map_world Object.cm_id 2 100 fresh_file [] tt (λ e. omega arith)
