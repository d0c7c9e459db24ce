-- ===== src/Ssd/Idle.antt =====
-- ssd.c: ssd_next_idle_time, which a flush waits for.
use nvmevirt_hybrid.Prelude.{
  ℕ, zero, suc, ◌≤◌, ◌≡◌, arith, List, [], ◌∷◌, max, some, get_elem?, some_injective,
}
use nvmevirt_hybrid.Ssd.{
  NandLun, SsdChannel, Ssd, latest_of_luns, latest_of_channels, ssd_next_idle_time,
}

luns-ge : (ls : List NandLun) (t : ℕ) → t ≤ latest_of_luns t ls
unfolding latest_of_luns
luns-ge [] t = omega arith
luns-ge (l ∷ ls) t = omega (arith, luns-ge ls (max t l.next_lun_avail_time))

lun-le :
    (ls : List NandLun) (t j : ℕ) (l : NandLun)
    → get_elem? ls j ≡ some l
    → l.next_lun_avail_time ≤ latest_of_luns t ls
unfolding latest_of_luns
lun-le [] t j l at = cc
lun-le (x ∷ ls) t zero l at =
    let same = some_injective at in
    rw (← same) (omega (arith, luns-ge ls (max t x.next_lun_avail_time)))
lun-le (x ∷ ls) t (suc j) l at = lun-le ls (max t x.next_lun_avail_time) j l at

channels-ge : (cs : List SsdChannel) (t : ℕ) → t ≤ latest_of_channels t cs
unfolding latest_of_channels
channels-ge [] t = omega arith
channels-ge (c ∷ cs) t = omega (arith, luns-ge c.lun t, channels-ge cs (latest_of_luns t c.lun))

channel-le :
    (cs : List SsdChannel) (t i j : ℕ) (c : SsdChannel) (l : NandLun)
    → get_elem? cs i ≡ some c
    → get_elem? c.lun j ≡ some l
    → l.next_lun_avail_time ≤ latest_of_channels t cs
unfolding latest_of_channels
channel-le [] t i j c l at in_c = cc
channel-le (x ∷ cs) t zero j c l at in_c =
    let same = some_injective at in
    let here : l.next_lun_avail_time ≤ latest_of_luns t x.lun = lun-le x.lun t j l (rw same in_c) in
    omega (arith, here, channels-ge cs (latest_of_luns t x.lun))
channel-le (x ∷ cs) t (suc i) j c l at in_c = channel-le cs (latest_of_luns t x.lun) i j c l at in_c

-- The device's next idle time is not before the clock's time, nor before the end of the work of any
-- LUN of any channel.
ssd_next_idle_time-ge :
    (cpu_clock : ℕ → ℕ) (ssd : Ssd) (i j : ℕ) (c : SsdChannel) (l : NandLun)
    → get_elem? ssd.ch i ≡ some c
    → get_elem? c.lun j ≡ some l
    → (cpu_clock ssd.reads ≤ (ssd_next_idle_time cpu_clock ssd).1)
      × (l.next_lun_avail_time ≤ (ssd_next_idle_time cpu_clock ssd).1)
unfolding ssd_next_idle_time
ssd_next_idle_time-ge cpu_clock ssd i j c l at in_c = (
  channels-ge ssd.ch (cpu_clock ssd.reads),
  channel-le ssd.ch (cpu_clock ssd.reads) i j c l at in_c,
)
