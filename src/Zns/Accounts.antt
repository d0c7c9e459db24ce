-- ===== src/Zns/Accounts.antt =====
-- What the resource counts of the zoned namespace stand for, and how a change of one zone moves them.
use nvmevirt_hybrid.Prelude.{
  ℕ, ◌+◌, ◌≤◌, ◌<◌, ◌≡◌, sym, ◌∙◌, inl, inr, arith, Bool, true, false, ◌&&◌, some, List, [], ◌∷◌,
  zero, suc, ◌⊎◌, get_elem?, set, count, bit, count-set, get_elem?-lt-length, get_elem?-set_self,
  get_elem?-set_ne, length-set, ◌==◌, Bool-cases, u32_mod,
}
use nvmevirt_hybrid.Zns.{
  ZnsFtl, ZoneState, empty, opened_impl, opened_expl, closed, ZoneDescriptor, ResourceInfo,
}

abbrev pub is_open_state : ZoneState → Bool
is_open_state opened_impl = true
is_open_state opened_expl = true
is_open_state _ = false

abbrev pub is_active_state : ZoneState → Bool
is_active_state opened_impl = true
is_active_state opened_expl = true
is_active_state closed = true
is_active_state _ = false

abbrev pub is_open : ZoneDescriptor → Bool
is_open d = is_open_state d.state

abbrev pub is_active : ZoneDescriptor → Bool
is_active d = is_active_state d.state

-- An active zone with a valid ZRWA holds one of the ZRWA resources.
abbrev pub holds_zrwa : ZoneDescriptor → Bool
holds_zrwa d = is_active d && d.zrwav

abbrev pub IsBounded : ResourceInfo → Type 0
IsBounded r = (r.acquired_cnt ≤ r.total_cnt) × (r.total_cnt < u32_mod)

-- An empty zone has no ZRWA.
abbrev pub EmptyIsPlain : List ZoneDescriptor → Type 0
EmptyIsPlain ds =
    (i : ℕ) (d : ZoneDescriptor) → get_elem? ds i ≡ some d → d.state ≡ empty → d.zrwav ≡ false

-- The counts agree with the zones' states, up to ZRWA resources that nobody holds any more.
pub record Accounted (z : ZnsFtl) : Type 0 where
  pub open_eq : z.open_info.acquired_cnt ≡ count is_open z.zone_descs
  pub active_eq : z.active_info.acquired_cnt ≡ count is_active z.zone_descs
  pub zrwa_ge : count holds_zrwa z.zone_descs ≤ z.zrwa_info.acquired_cnt
  pub open_in : IsBounded z.open_info
  pub active_in : IsBounded z.active_info
  pub zrwa_in : IsBounded z.zrwa_info
  pub plain : EmptyIsPlain z.zone_descs

-- No ZRWA resource is lost.
abbrev pub IsExact : ZnsFtl → Type 0
IsExact z = z.zrwa_info.acquired_cnt ≡ count holds_zrwa z.zone_descs

-- Zone `zid` goes from `d` to `e`, and the counts go with it.
pub record Moves (z : ZnsFtl) (zid : ℕ) (d e : ZoneDescriptor) (y : ZnsFtl) : Type 0 where
  pub at : get_elem? z.zone_descs zid ≡ some d
  pub descs : y.zone_descs ≡ set z.zone_descs zid e
  pub open_moves :
      y.open_info.acquired_cnt + bit (is_open d) ≡ z.open_info.acquired_cnt + bit (is_open e)
  pub active_moves :
      y.active_info.acquired_cnt + bit (is_active d)
      ≡ z.active_info.acquired_cnt + bit (is_active e)
  pub zrwa_moves :
      y.zrwa_info.acquired_cnt + bit (holds_zrwa d) ≡ z.zrwa_info.acquired_cnt + bit (holds_zrwa e)
  pub open_in : IsBounded y.open_info
  pub active_in : IsBounded y.active_info
  pub zrwa_in : IsBounded y.zrwa_info
  pub plain : e.state ≡ empty → e.zrwav ≡ false

pub EmptyIsPlain-set :
    (ds : List ZoneDescriptor) (i : ℕ) (e : ZoneDescriptor)
    → EmptyIsPlain ds
    → (e.state ≡ empty → e.zrwav ≡ false)
    → EmptyIsPlain (set ds i e)
EmptyIsPlain-set ds i e h k j d at s = elim (Bool-cases (i == j)) [
  | inl same ↦
      ground (
        arith,
        get_elem?-lt-length (set ds i e) j d at,
        length-set ds i e,
        get_elem?-set_self ds i e,
      )
  | inr other ↦ h j d (sym (get_elem?-set_ne ds i j e (ground arith)) ∙ at) s
]

module _ (z : ZnsFtl) (zid : ℕ) (d e : ZoneDescriptor) (y : ZnsFtl) (m : Moves z zid d e y) where
  pub Moves-Accounted : Accounted z → Accounted y
  Moves-Accounted v = record {
    open_eq =
        rw m.descs
          (omega (arith, count-set is_open z.zone_descs zid d e m.at, m.open_moves, v.open_eq));
    active_eq =
        rw m.descs (
          omega
            (arith, count-set is_active z.zone_descs zid d e m.at, m.active_moves, v.active_eq));
    zrwa_ge =
        rw m.descs
          (omega (arith, count-set holds_zrwa z.zone_descs zid d e m.at, m.zrwa_moves, v.zrwa_ge));
    open_in = m.open_in;
    active_in = m.active_in;
    zrwa_in = m.zrwa_in;
    plain = rw m.descs (EmptyIsPlain-set z.zone_descs zid e v.plain m.plain);
  }

  pub Moves-IsExact : IsExact z → IsExact y
  Moves-IsExact v =
      rw m.descs (omega (arith, count-set holds_zrwa z.zone_descs zid d e m.at, m.zrwa_moves, v))

-- A command on zone `zid` moves that zone alone, or nothing.
abbrev pub MovesAt : ZnsFtl → ℕ → ZoneDescriptor → ZnsFtl → Type 0
MovesAt z zid d y = (y ≡ z) ⊎ ((e : ZoneDescriptor) × Moves z zid d e y)

pub MovesAt-Accounted :
    (z : ZnsFtl) (zid : ℕ) (d : ZoneDescriptor) (y : ZnsFtl)
    → MovesAt z zid d y
    → Accounted z
    → Accounted y
MovesAt-Accounted z zid d y (inl same) v = rw same v
MovesAt-Accounted z zid d y (inr (e, m)) v = Moves-Accounted z zid d e y m v

pub MovesAt-IsExact :
    (z : ZnsFtl) (zid : ℕ) (d : ZoneDescriptor) (y : ZnsFtl)
    → MovesAt z zid d y
    → IsExact z
    → IsExact y
MovesAt-IsExact z zid d y (inl same) v = rw same v
MovesAt-IsExact z zid d y (inr (e, m)) v = Moves-IsExact z zid d e y m v

pub count-pos :
    (p : ZoneDescriptor → Bool) (ds : List ZoneDescriptor) (i : ℕ) (d : ZoneDescriptor)
    → get_elem? ds i ≡ some d
    → bit (p d) ≤ count p ds
count-pos p [] i d h = cc
count-pos p (x ∷ ds) zero d h = ground arith
count-pos p (x ∷ ds) (suc i) d h = omega (arith, count-pos p ds i d h)
