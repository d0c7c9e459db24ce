-- ===== src/Zns/MgmtSend.antt =====
-- zns_mgmt_send.c: the zone management commands. A handler reads the zone's descriptor, and a `switch`
-- over its state is a function by clauses; where a case falls through, it calls the next one's code.
pub mod Laws
pub mod Keeps
pub mod Reset
use nvmevirt_hybrid.Prelude.{
  ℕ, zero, suc, ◌+◌, ◌-◌, ◌*◌, ◌%◌, min, Bool, true, false, not, ◌&&◌, get_elem?, set, ltb, leb,
  ◌==◌, if◌then◌else◌, u32_mod, u64_mod,
}
use nvmevirt_hybrid.Prelude.Run.{
  Run, ok, fault, out_of_bounds, divide_by_zero, uninitialised, ◌>>=◌, or_fault,
}
use nvmevirt_hybrid.Buffer.{Buffer, buffer_refill}
use nvmevirt_hybrid.Zns.{
  ZnsFtl, ZoneState, empty, opened_impl, opened_expl, closed, read_only, full, offline,
  ZoneDescriptor, active_zone, open_zone, zrwa_zone, Status, success, invalid_field,
  invalid_zone_operation, zrwa_rsrc_unavail, no_active_zone, no_open_zone, invalid_transition,
  is_zone_resource_full, acquire_zone_resource, release_zone_resource, zone_desc, put_desc,
  change_zone_state, lba_to_zone, zone_to_slba,
}

-- `__zmgmt_send_close_zone`
unfoldable pub close_switch : ZoneState → ZnsFtl → ℕ → ZoneDescriptor → ZnsFtl × Status
unfolding change_zone_state release_zone_resource
close_switch opened_impl z zid d =
    (release_zone_resource (change_zone_state z zid d closed) open_zone, success)
close_switch opened_expl z zid d =
    (release_zone_resource (change_zone_state z zid d closed) open_zone, success)
close_switch closed z zid d = (z, success)
close_switch _ z zid d = (z, invalid_transition)

unfoldable pub zmgmt_send_close_zone : ZnsFtl → ℕ → Run (ZnsFtl × Status)
zmgmt_send_close_zone z zid = do d ← zone_desc z zid; ok (close_switch d.state z zid d)

-- `__zmgmt_send_finish_zone`, from ZONE_STATE_CLOSED on
unfoldable pub finish_closed : ZnsFtl → ℕ → ZoneDescriptor → ZnsFtl × Status
unfolding change_zone_state release_zone_resource
finish_closed z zid d =
    let z1 = release_zone_resource z active_zone in
    let z2 = if d.zrwav then release_zone_resource z1 zrwa_zone else z1 in
    (change_zone_state z2 zid d full, success)

unfoldable pub finish_switch : ZoneState → ZnsFtl → ℕ → ZoneDescriptor → ZnsFtl × Status
unfolding finish_closed change_zone_state release_zone_resource
finish_switch opened_impl z zid d = finish_closed (release_zone_resource z open_zone) zid d
finish_switch opened_expl z zid d = finish_closed (release_zone_resource z open_zone) zid d
finish_switch closed z zid d = finish_closed z zid d
finish_switch empty z zid d = (change_zone_state z zid d full, success)
finish_switch full z zid d = (z, success)
finish_switch _ z zid d = (z, invalid_transition)

unfoldable pub zmgmt_send_finish_zone : ZnsFtl → ℕ → Run (ZnsFtl × Status)
zmgmt_send_finish_zone z zid = do d ← zone_desc z zid; ok (finish_switch d.state z zid d)

-- `__zmgmt_send_open_zone`, from ZONE_STATE_OPENED_IMPL and from ZONE_STATE_CLOSED on
unfoldable pub open_impl : ZnsFtl → ℕ → ZoneDescriptor → ZnsFtl × Status
unfolding change_zone_state
open_impl z zid d = (change_zone_state z zid d opened_expl, success)

unfoldable pub open_closed : ZnsFtl → ℕ → ZoneDescriptor → ZnsFtl × Status
unfolding open_impl acquire_zone_resource
open_closed z zid d =
    let (z1, got) = acquire_zone_resource z open_zone in
    if not got then (z1, no_open_zone) else open_impl z1 zid d

-- the EMPTY case behind all its checks
unfoldable pub open_empty : ZnsFtl → ℕ → ZoneDescriptor → ZnsFtl × Status
unfolding open_closed acquire_zone_resource
open_empty z zid d = open_closed (acquire_zone_resource z active_zone).0 zid d

-- the EMPTY case behind the checks of the active and the open zones
unfoldable pub open_checked : ZnsFtl → ℕ → ZoneDescriptor → Bool → ZnsFtl × Status
unfolding open_empty is_zone_resource_full acquire_zone_resource
open_checked z zid d zrwa =
    if zrwa
    then (if is_zone_resource_full z zrwa_zone
        then (z, zrwa_rsrc_unavail)
        else let z1 = (acquire_zone_resource z zrwa_zone).0 in
          let d1 = record d { zrwav = true } in open_empty (put_desc z1 zid d1) zid d1)
    else open_empty z zid d

unfoldable pub open_switch : ZoneState → ZnsFtl → ℕ → ZoneDescriptor → Bool → ZnsFtl × Status
unfolding open_impl open_closed is_zone_resource_full
open_switch empty z zid d zrwa =
    if is_zone_resource_full z active_zone
    then (z, no_active_zone)
    else if is_zone_resource_full z open_zone
    then (z, no_open_zone)
    else open_checked z zid d zrwa
open_switch closed z zid d zrwa = open_closed z zid d
open_switch opened_impl z zid d zrwa = open_impl z zid d
open_switch opened_expl z zid d zrwa = (z, success)
open_switch _ z zid d zrwa = (z, invalid_transition)

unfoldable pub zmgmt_send_open_zone : ZnsFtl → ℕ → Bool → Run (ZnsFtl × Status)
zmgmt_send_open_zone z zid zrwa = do d ← zone_desc z zid; ok (open_switch d.state z zid d zrwa)

-- memset(zone_start_addr, 0, zone_size)
abbrev pub zero_zone : ZnsFtl → ℕ → ℕ → ℕ
zero_zone z zid a =
    if leb (zid * z.zp.zone_size) a && ltb a (zid * z.zp.zone_size + z.zp.zone_size)
    then 0
    else z.storage a

-- `__reset_zone`, with the state that change_zone_state has set before
unfoldable pub reset_zone : ZnsFtl → ℕ → ZoneDescriptor → Run ZnsFtl
unfolding buffer_refill
reset_zone z zid d =
    let z1 = record (put_desc z zid (record d { wp = d.zslba; zrwav = false })) {
      storage = zero_zone z zid;
    } in
    if z.zp.zrwa_buffer_size == 0 then ok z1 else do
      b ← or_fault (get_elem? z.zwra_buffer zid) out_of_bounds
      ok (record z1 { zwra_buffer = set z.zwra_buffer zid (buffer_refill b) })

-- `__zmgmt_send_reset_zone`, from ZONE_STATE_FULL and from ZONE_STATE_CLOSED on
unfoldable pub reset_full : ZnsFtl → ℕ → ZoneDescriptor → Run (ZnsFtl × Status)
unfolding reset_zone
reset_full z zid d = do z1 ← reset_zone z zid (record d { state = empty }); ok (z1, success)

unfoldable pub reset_closed : ZnsFtl → ℕ → ZoneDescriptor → Run (ZnsFtl × Status)
unfolding reset_full release_zone_resource
reset_closed z zid d =
    let z1 = release_zone_resource z active_zone in
    reset_full (if d.zrwav then release_zone_resource z1 zrwa_zone else z1) zid d

unfoldable pub reset_switch : ZoneState → ZnsFtl → ℕ → ZoneDescriptor → Run (ZnsFtl × Status)
unfolding reset_full reset_closed release_zone_resource
reset_switch opened_impl z zid d = reset_closed (release_zone_resource z open_zone) zid d
reset_switch opened_expl z zid d = reset_closed (release_zone_resource z open_zone) zid d
reset_switch closed z zid d = reset_closed z zid d
reset_switch full z zid d = reset_full z zid d
reset_switch empty z zid d = reset_full z zid d
reset_switch _ z zid d = ok (z, invalid_transition)

unfoldable pub zmgmt_send_reset_zone : ZnsFtl → ℕ → Run (ZnsFtl × Status)
zmgmt_send_reset_zone z zid = do d ← zone_desc z zid; reset_switch d.state z zid d

-- `__zmgmt_send_offline_zone`
unfoldable pub offline_switch : ZoneState → ZnsFtl → ℕ → ZoneDescriptor → ZnsFtl × Status
unfolding change_zone_state
offline_switch read_only z zid d = (change_zone_state z zid d offline, success)
offline_switch offline z zid d = (z, success)
offline_switch _ z zid d = (z, invalid_transition)

unfoldable pub zmgmt_send_offline_zone : ZnsFtl → ℕ → Run (ZnsFtl × Status)
zmgmt_send_offline_zone z zid = do d ← zone_desc z zid; ok (offline_switch d.state z zid d)

-- `__zmgmt_send_flush_explicit_zrwa`: the zone's new write pointer, in `d`, has reached its end
unfoldable pub zone_filled : ZnsFtl → ℕ → ZoneDescriptor → Bool → ZnsFtl
unfolding release_zone_resource change_zone_state
zone_filled z zid d is_open =
    let z1 = put_desc z zid d in
    let z2 = if is_open then release_zone_resource z1 open_zone else z1 in
    let z3 = release_zone_resource (release_zone_resource z2 active_zone) zrwa_zone in
    change_zone_state z3 zid d full

-- the cases that flush
unfoldable pub flush_full : ZnsFtl → ℕ → ZoneDescriptor → Bool → ZnsFtl
flush_full z zid d is_open =
    if d.wp == (zone_to_slba z zid + d.zone_capacity) % u64_mod
    then zone_filled z zid d is_open
    else put_desc z zid d

unfoldable pub flush_switch : ZoneState → ZnsFtl → ℕ → ZoneDescriptor → ℕ → ZnsFtl × Status
unfolding flush_full
flush_switch opened_expl z zid d slba =
    (flush_full z zid (record d { wp = (slba + 1) % u64_mod }) true, success)
flush_switch opened_impl z zid d slba =
    (flush_full z zid (record d { wp = (slba + 1) % u64_mod }) true, success)
flush_switch closed z zid d slba =
    (flush_full z zid (record d { wp = (slba + 1) % u64_mod }) false, success)
flush_switch _ z zid d slba = (z, invalid_zone_operation)

unfoldable pub zmgmt_send_flush_explicit_zrwa : ZnsFtl → ℕ → Run (ZnsFtl × Status)
zmgmt_send_flush_explicit_zrwa z slba = do
  let zid = lba_to_zone z slba
  d ← zone_desc z zid
  let zrwa_start = d.wp
  let zrwa_end =
      min ((zrwa_start + z.zp.lbas_per_zrwa + u64_mod - 1) % u64_mod)
        ((zone_to_slba z zid + d.zone_capacity + u64_mod - 1) % u64_mod)
  let nr_lbas_flush = (slba + u64_mod - d.wp + 1) % u64_mod
  if not d.zrwav
      then ok (z, invalid_zone_operation)
      else if not (leb zrwa_start slba && leb slba zrwa_end)
      then ok (z, invalid_zone_operation)
      else if z.zp.lbas_per_zrwafg == 0
      then fault divide_by_zero
      else if not (nr_lbas_flush % z.zp.lbas_per_zrwafg == 0)
      then ok (z, invalid_field)
      else ok (flush_switch d.state z zid d slba)

-- `enum zone_send_action`; `other_action` stands for every value that the switch does not list.
pub data ZoneSendAction : Type 0 where
  close_zone finish_zone open_a_zone reset_a_zone offline_zone flush_expl_zrwa : ZoneSendAction
  other_action : ZoneSendAction

-- An action outside the switch leaves the status unwritten.
unfoldable pub zmgmt_send : ZoneSendAction → ZnsFtl → ℕ → Bool → Run (ZnsFtl × Status)
zmgmt_send close_zone z slba option = zmgmt_send_close_zone z (lba_to_zone z slba)
zmgmt_send finish_zone z slba option = zmgmt_send_finish_zone z (lba_to_zone z slba)
zmgmt_send open_a_zone z slba option = zmgmt_send_open_zone z (lba_to_zone z slba) option
zmgmt_send reset_a_zone z slba option = zmgmt_send_reset_zone z (lba_to_zone z slba)
zmgmt_send offline_zone z slba option = zmgmt_send_offline_zone z (lba_to_zone z slba)
zmgmt_send flush_expl_zrwa z slba option = zmgmt_send_flush_explicit_zrwa z slba
zmgmt_send other_action z slba option = fault uninitialised

-- The loop of zns_zmgmt_send under select_all, over the `n` zones from `zid` on.
unfoldable pub send_all : ℕ → ℕ → ZoneSendAction → ZnsFtl → Bool → Run ZnsFtl
send_all zero zid action z option = ok z
send_all (suc n) zid action z option =
    zmgmt_send action z (zone_to_slba z zid) option >>= λ (z1, _).
    send_all n (zid + 1) action z1 option

pub record ZoneMgmtSend : Type 0 where
  pub select_all : Bool
  pub zsa : ZoneSendAction
  pub zsaso : Bool
  pub slba : ℕ

-- The command's status, and its end: the start of the request, since it takes no time.
unfoldable pub zns_zmgmt_send : ZnsFtl → ZoneMgmtSend → ℕ → Run (ZnsFtl × Status × ℕ)
zns_zmgmt_send z cmd nsecs_start =
    if cmd.select_all
    then (send_all z.zp.nr_zones 0 cmd.zsa z cmd.zsaso >>= λ z1. ok (z1, success, nsecs_start))
    else (zmgmt_send cmd.zsa z cmd.slba cmd.zsaso >>= λ (z1, status). ok (z1, status, nsecs_start))
