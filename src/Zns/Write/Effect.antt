-- ===== src/Zns/Write/Effect.antt =====
-- zns_read_write.c: what `__zns_write` as a whole does to the zones, on every path.
use nvmevirt_hybrid.Prelude.{
  ℕ, ◌≡◌, refl, ◌∙◌, ◌⊎◌, inl, inr, false, some, get_elem?, ltb, if◌then◌else◌, Bool-cases,
}
use nvmevirt_hybrid.Prelude.Run.{ok, >>=-eq-ok, ok-injective}
use nvmevirt_hybrid.Buffer.{Buffer, buffer_allocate}
use nvmevirt_hybrid.Zns.{ZnsFtl, ZoneDescriptor, lba_to_zone}
use nvmevirt_hybrid.Zns.Accounts.{Accounted, IsExact}
use nvmevirt_hybrid.Zns.Write.{
  RwCommand, BufferRef, WriteOutcome, nr_lbas_from_rw_cmd, lba_to_byte, Step, go_on, out,
  write_checked, write_buffer_ref, read_buffer, put_buffer, write_step, zone_write,
}
use nvmevirt_hybrid.Zns.Write.Guards.{StepOk, write_checked-ok, write_checked-at_wp}
use nvmevirt_hybrid.Zns.Write.Laws.{
  SameZones-keeps, put_buffer-SameZones, put_buffer-zone_to_slba, Written, Refused, step-Written,
}

-- The buffer's share of a write does not show in its effect.
Written-put_buffer :
    (z : ZnsFtl) (ref : BufferRef) (b : Buffer) (zid : ℕ) (d : ZoneDescriptor) (nr_lba slba : ℕ)
    (r : WriteOutcome)
    → Written (put_buffer z ref b) zid d nr_lba slba r
    → Written z zid d nr_lba slba r
Written-put_buffer z ref b zid d nr_lba slba r m =
    let same = put_buffer-zone_to_slba z ref b zid in
    record {
      entry = m.entry;
      status = m.status;
      at_wp = m.at_wp;
      slba_eq = m.slba_eq;
      descs = rw (← (put_buffer-SameZones z ref b).descs) m.descs;
      wp = m.wp;
      fills = λ e. m.fills (rw same e);
      stays = λ e. m.stays (rw same e);
    }

Refused-put_buffer :
    (z : ZnsFtl) (ref : BufferRef) (b : Buffer) (r : WriteOutcome)
    → Refused (put_buffer z ref b) r
    → Refused z r
Refused-put_buffer z ref b r m =
    let s = put_buffer-SameZones z ref b in
    record {
      same = record {
        descs = m.same.descs ∙ s.descs;
        active = m.same.active ∙ s.active;
        opened = m.same.opened ∙ s.opened;
        zrwa = m.same.zrwa ∙ s.zrwa;
      };
      no_success = m.no_success;
    }

-- What a call of zone_write does to the zones, and what it keeps.
abbrev pub Effect : ZnsFtl → ℕ → ZoneDescriptor → ℕ → ℕ → WriteOutcome → Type 0
Effect z zid d nr_lba slba r =
    (Written z zid d nr_lba slba r ⊎ Refused z r) × Accounted r.ftl × (IsExact z → IsExact r.ftl)

module _ (cpu_clock : ℕ → ℕ) where
  step-Effect :
      (z : ZnsFtl) (zid : ℕ) (d : ZoneDescriptor) (cmd : RwCommand) (slba : ℕ) (ref : BufferRef)
      (r : WriteOutcome)
      → get_elem? z.zone_descs zid ≡ some d
      → Accounted z
      → d.zrwav ≡ false
      → (s : Step) → StepOk z zid d s
      → ((y : ZnsFtl) → s ≡ go_on y → slba ≡ d.wp)
      → write_step cpu_clock s zid cmd slba ref ≡ ok r
      → Effect z zid d (nr_lbas_from_rw_cmd cmd) slba r
  step-Effect z zid d cmd slba ref r at v w (go_on y) n here h =
      let (written, kept, exact) =
        step-Written cpu_clock z y zid d cmd slba ref r at v w (here y refl) n h in
      (inl written, kept, exact)
  step-Effect z zid d cmd slba ref r at v w (out y st) (same, wrong) here h =
      let e = ok-injective h in
      rw (← e) (
        inr (record {
          same = rw same (record { descs = refl; active = refl; opened = refl; zrwa = refl });
          no_success = λ k. wrong;
        }),
        rw same v,
        λ exact. rw same exact,
      )

  zone_write-Effect :
      (z : ZnsFtl) (cmd : RwCommand) (d : ZoneDescriptor) (r : WriteOutcome)
      → get_elem? z.zone_descs (lba_to_zone z cmd.slba) ≡ some d
      → Accounted z
      → d.zrwav ≡ false
      → zone_write cpu_clock z cmd ≡ ok r
      → Effect z
          (lba_to_zone z cmd.slba)
          d
          (nr_lbas_from_rw_cmd cmd)
          (if cmd.is_append then d.wp else cmd.slba)
          r
  unfolding zone_write
  zone_write-Effect z cmd d r at v w h =
      let zid = lba_to_zone z cmd.slba in
      let ref = write_buffer_ref z zid in
      let bytes = lba_to_byte (nr_lbas_from_rw_cmd cmd) in
      let slba = if cmd.is_append then d.wp else cmd.slba in
      let (b, read, h1) = >>=-eq-ok (read_buffer z ref) _ r (rw at at h) in
      let b1 = (buffer_allocate b bytes).0 in
      let same = put_buffer-SameZones z ref b1 in
      elim (Bool-cases (ltb (buffer_allocate b bytes).1 bytes)) [
        | inl short ↦
            let e = ok-injective (rw short at h1) in
            let (kept, exact) = SameZones-keeps z (put_buffer z ref b1) same v in
            rw (← e) (inr (record { same = same; no_success = λ k. cc }), kept, exact)
        | inr room ↦
            let (kept, exact) = SameZones-keeps z (put_buffer z ref b1) same v in
            let z1 = put_buffer z ref b1 in
            let at1 : get_elem? z1.zone_descs zid ≡ some d = rw same.descs at in
            let (how, keeps, exacts) =
              step-Effect z1 zid d cmd slba ref r at1 kept w
                (write_checked z1 zid d slba (nr_lbas_from_rw_cmd cmd))
                (write_checked-ok z1 zid d at1 kept slba (nr_lbas_from_rw_cmd cmd))
                (write_checked-at_wp z1 zid d at1 kept slba (nr_lbas_from_rw_cmd cmd))
                (rw room at h1) in
            let back : Written z zid d (nr_lbas_from_rw_cmd cmd) slba r ⊎ Refused z r = elim how [
              | inl m ↦ inl (Written-put_buffer z ref b1 zid d (nr_lbas_from_rw_cmd cmd) slba r m)
              | inr m ↦ inr (Refused-put_buffer z ref b1 r m)
            ] in
            (back, keeps, λ x. exacts (exact x))
      ]

  -- A write that returns, to a zone without a ZRWA, either succeeds or leaves every zone and every
  -- resource count alone and does not report success. If it succeeds, it started at the zone's write
  -- pointer, for an append and for a write alike, the pointer has moved on by the command's number of
  -- sectors, the zone is full if the pointer has come to its end and open if not, and no other zone
  -- has changed.
  pub zone_write-effect :
      (z : ZnsFtl) (cmd : RwCommand) (d : ZoneDescriptor) (r : WriteOutcome)
      → get_elem? z.zone_descs (lba_to_zone z cmd.slba) ≡ some d
      → Accounted z
      → d.zrwav ≡ false
      → zone_write cpu_clock z cmd ≡ ok r
      → Written z
          (lba_to_zone z cmd.slba)
          d
          (nr_lbas_from_rw_cmd cmd)
          (if cmd.is_append then d.wp else cmd.slba)
          r
        ⊎ Refused z r
  zone_write-effect z cmd d r at v w h = (zone_write-Effect z cmd d r at v w h).0

  -- A write that returns, to a zone without a ZRWA, keeps the counts of active and open zones equal to
  -- the numbers of zones in those states, and loses no ZRWA resource.
  pub zone_write-keeps :
      (z : ZnsFtl) (cmd : RwCommand) (d : ZoneDescriptor) (r : WriteOutcome)
      → get_elem? z.zone_descs (lba_to_zone z cmd.slba) ≡ some d
      → Accounted z
      → d.zrwav ≡ false
      → zone_write cpu_clock z cmd ≡ ok r
      → Accounted r.ftl × (IsExact z → IsExact r.ftl)
  zone_write-keeps z cmd d r at v w h =
      let (how, kept, exact) = zone_write-Effect z cmd d r at v w h in (kept, exact)
