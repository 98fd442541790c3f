-- ===== src/Rfc1813/Sattr/RoundTrip.antt =====
-- Reading back what the packers of Rfc1813/Sattr.antt write.
use perennial.Prelude.{◌≡◌, refl, sym, none, if◌then◌else◌}
use perennial.Xdr.{ℤ, field_is, OnSome}
use perennial.Xdr.Reads.{Reads, Reads-if, Reads-bind, Reads-last, Reads-done}
use perennial.Xdr.RoundTrip.{
  Reads-uint, IsUint64, Reads-uhyper, IsBit, Reads-bool, Reads-field, Reads-field_if, Reads-enum,
}
use perennial.Rfc1813.Const.{int_true, set_to_client_time}
use perennial.Rfc1813.Sattr.{
  time_how_values, pack_time_how, unpack_time_how, SetMode3, pack_set_mode3, unpack_set_mode3,
  SetUid3, pack_set_uid3, unpack_set_uid3, SetGid3, pack_set_gid3, unpack_set_gid3, SetSize3,
  pack_set_size3, unpack_set_size3, SetAtime, pack_set_atime, unpack_set_atime, SetMtime,
  pack_set_mtime, unpack_set_mtime, Sattr3, pack_sattr3, unpack_sattr3,
}
use perennial.Rfc1813.Structs.RoundTrip.{Reads-nfstime3}

pub Reads-time_how : (z : ℤ) → Reads (pack_time_how z) unpack_time_how z
unfolding pack_time_how unpack_time_how
Reads-time_how = Reads-enum time_how_values

abbrev pub IsSetMode3 : SetMode3 → Type 0
IsSetMode3 d =
    OnSome IsBit d.set_it × (if field_is d.set_it int_true then Unit {0} else (d.mode ≡ none))

pub Reads-set_mode3 : (d : SetMode3) → IsSetMode3 d → Reads (pack_set_mode3 d) unpack_set_mode3 d
unfolding pack_set_mode3 unpack_set_mode3
Reads-set_mode3 d c =
    Reads-bind _ _ _ _ d.set_it d (Reads-field_if _ _ _ IsBit Reads-bool d.set_it c.0) (
      Reads-if (field_is d.set_it int_true) _ _ _ _ d
        (λ h0. Reads-last _ _ _ d.mode d (Reads-field _ _ _ Reads-uint d.mode) refl)
        (λ h0.
          let e = (rw h0 at c.1) in
          Reads-done _ d (λ i. record { set_it = d.set_it; mode = sym e i })))

abbrev pub IsSetUid3 : SetUid3 → Type 0
IsSetUid3 d =
    OnSome IsBit d.set_it × (if field_is d.set_it int_true then Unit {0} else (d.uid ≡ none))

pub Reads-set_uid3 : (d : SetUid3) → IsSetUid3 d → Reads (pack_set_uid3 d) unpack_set_uid3 d
unfolding pack_set_uid3 unpack_set_uid3
Reads-set_uid3 d c =
    Reads-bind _ _ _ _ d.set_it d (Reads-field_if _ _ _ IsBit Reads-bool d.set_it c.0) (
      Reads-if (field_is d.set_it int_true) _ _ _ _ d
        (λ h0. Reads-last _ _ _ d.uid d (Reads-field _ _ _ Reads-uint d.uid) refl)
        (λ h0.
          let e = (rw h0 at c.1) in
          Reads-done _ d (λ i. record { set_it = d.set_it; uid = sym e i })))

abbrev pub IsSetGid3 : SetGid3 → Type 0
IsSetGid3 d =
    OnSome IsBit d.set_it × (if field_is d.set_it int_true then Unit {0} else (d.gid ≡ none))

pub Reads-set_gid3 : (d : SetGid3) → IsSetGid3 d → Reads (pack_set_gid3 d) unpack_set_gid3 d
unfolding pack_set_gid3 unpack_set_gid3
Reads-set_gid3 d c =
    Reads-bind _ _ _ _ d.set_it d (Reads-field_if _ _ _ IsBit Reads-bool d.set_it c.0) (
      Reads-if (field_is d.set_it int_true) _ _ _ _ d
        (λ h0. Reads-last _ _ _ d.gid d (Reads-field _ _ _ Reads-uint d.gid) refl)
        (λ h0.
          let e = (rw h0 at c.1) in
          Reads-done _ d (λ i. record { set_it = d.set_it; gid = sym e i })))

abbrev pub IsSetSize3 : SetSize3 → Type 0
IsSetSize3 d =
    OnSome IsBit d.set_it
    × OnSome IsUint64 d.size
    × (if field_is d.set_it int_true then Unit {0} else (d.size ≡ none))

pub Reads-set_size3 : (d : SetSize3) → IsSetSize3 d → Reads (pack_set_size3 d) unpack_set_size3 d
unfolding pack_set_size3 unpack_set_size3
Reads-set_size3 d c =
    Reads-bind _ _ _ _ d.set_it d (Reads-field_if _ _ _ IsBit Reads-bool d.set_it c.0) (
      Reads-if (field_is d.set_it int_true) _ _ _ _ d
        (λ h0.
          Reads-last _ _ _ d.size d (Reads-field_if _ _ _ IsUint64 Reads-uhyper d.size c.1) refl)
        (λ h0.
          let e = (rw h0 at c.2) in
          Reads-done _ d (λ i. record { set_it = d.set_it; size = sym e i })))

abbrev pub IsSetAtime : SetAtime → Type 0
IsSetAtime d = (if field_is d.set_it set_to_client_time then Unit {0} else (d.atime ≡ none))

pub Reads-set_atime : (d : SetAtime) → IsSetAtime d → Reads (pack_set_atime d) unpack_set_atime d
unfolding pack_set_atime unpack_set_atime
Reads-set_atime d c = Reads-bind _ _ _ _ d.set_it d (Reads-field _ _ _ Reads-time_how d.set_it) (
    Reads-if (field_is d.set_it set_to_client_time) _ _ _ _ d
      (λ h0. Reads-last _ _ _ d.atime d (Reads-field _ _ _ Reads-nfstime3 d.atime) refl)
      (λ h0.
        let e = (rw h0 at c) in
        Reads-done _ d (λ i. record { set_it = d.set_it; atime = sym e i })))

abbrev pub IsSetMtime : SetMtime → Type 0
IsSetMtime d = (if field_is d.set_it set_to_client_time then Unit {0} else (d.mtime ≡ none))

pub Reads-set_mtime : (d : SetMtime) → IsSetMtime d → Reads (pack_set_mtime d) unpack_set_mtime d
unfolding pack_set_mtime unpack_set_mtime
Reads-set_mtime d c = Reads-bind _ _ _ _ d.set_it d (Reads-field _ _ _ Reads-time_how d.set_it) (
    Reads-if (field_is d.set_it set_to_client_time) _ _ _ _ d
      (λ h0. Reads-last _ _ _ d.mtime d (Reads-field _ _ _ Reads-nfstime3 d.mtime) refl)
      (λ h0.
        let e = (rw h0 at c) in
        Reads-done _ d (λ i. record { set_it = d.set_it; mtime = sym e i })))

abbrev pub IsSattr3 : Sattr3 → Type 0
IsSattr3 d =
    OnSome IsSetMode3 d.mode
    × OnSome IsSetUid3 d.uid
    × OnSome IsSetGid3 d.gid
    × OnSome IsSetSize3 d.size
    × OnSome IsSetAtime d.atime
    × OnSome IsSetMtime d.mtime

pub Reads-sattr3 : (d : Sattr3) → IsSattr3 d → Reads (pack_sattr3 d) unpack_sattr3 d
unfolding pack_sattr3 unpack_sattr3
Reads-sattr3 d c =
    Reads-bind _ _ _ _ d.mode d (Reads-field_if _ _ _ IsSetMode3 Reads-set_mode3 d.mode c.0) (
      Reads-bind _ _ _ _ d.uid d (Reads-field_if _ _ _ IsSetUid3 Reads-set_uid3 d.uid c.1) (
        Reads-bind _ _ _ _ d.gid d (Reads-field_if _ _ _ IsSetGid3 Reads-set_gid3 d.gid c.2) (
          Reads-bind _ _ _ _ d.size d (Reads-field_if _ _ _ IsSetSize3 Reads-set_size3 d.size c.3) (
            Reads-bind _ _ _ _ d.atime d
              (Reads-field_if _ _ _ IsSetAtime Reads-set_atime d.atime c.4)
              (Reads-last _ _ _ d.mtime d
                (Reads-field_if _ _ _ IsSetMtime Reads-set_mtime d.mtime c.5) refl)))))
