-- ===== src/Rfc1813/Listing/RoundTrip.antt =====
-- Reading back what the packers of Rfc1813/Listing.antt write.
use perennial.Prelude.{◌≡◌, refl, sym, none, if◌then◌else◌}
use perennial.Xdr.{field_is, OnSome}
use perennial.Xdr.Reads.{Reads, Reads-if, Reads-bind, Reads-last}
use perennial.Xdr.RoundTrip.{
  IsUint64, Reads-uhyper, IsBit, Reads-bool, Reads-opaque, Reads-field, Reads-field_if,
}
use perennial.Xdr.Linked.{Nodes}
use perennial.Xdr.Linked.RoundTrip.{IsLinked, IsNodes, Reads-whole, Reads-whole_next}
use perennial.Rfc1813.Const.{nfs3_ok}
use perennial.Rfc1813.Listing.{
  Entry3Fields, pack_entry3_fields, unpack_entry3_fields, Entry3, pack_entry3, unpack_entry3,
  pack_entry3_array, unpack_entry3_array, Dirlist3, pack_dirlist3, unpack_dirlist3, Readdir3ResOk,
  pack_readdir3resok, unpack_readdir3resok, Readdir3Res, pack_readdir3res, unpack_readdir3res,
  Entryplus3Fields, pack_entryplus3_fields, unpack_entryplus3_fields, Entryplus3, pack_entryplus3,
  unpack_entryplus3, pack_entryplus3_array, unpack_entryplus3_array, Dirlistplus3,
  pack_dirlistplus3, unpack_dirlistplus3, Readdirplus3ResOk, pack_readdirplus3resok,
  unpack_readdirplus3resok, Readdirplus3Res, pack_readdirplus3res, unpack_readdirplus3res,
}
use perennial.Rfc1813.Basic.RoundTrip.{IsCookieverf3, Reads-cookieverf3, Reads-nfsstat3}
use perennial.Rfc1813.Attributes.RoundTrip.{
  IsPostOpAttr, Reads-post_op_attr, IsPostOpFh3, Reads-post_op_fh3,
}
use perennial.Rfc1813.Readdir.RoundTrip.{
  IsReaddir3ResFail, Reads-readdir3resfail, IsReaddirplus3ResFail, Reads-readdirplus3resfail,
}
use perennial.Rfc1813.Listing.Decoding.{Decodes-entry3_fields, Decodes-entryplus3_fields}

abbrev pub IsEntry3Fields : Entry3Fields → Type 0
IsEntry3Fields d = OnSome IsUint64 d.fileid × OnSome IsUint64 d.cookie

pub Reads-entry3_fields :
    (d : Entry3Fields) → IsEntry3Fields d → Reads (pack_entry3_fields d) unpack_entry3_fields d
unfolding pack_entry3_fields unpack_entry3_fields
Reads-entry3_fields d c =
    Reads-bind _ _ _ _ d.fileid d (Reads-field_if _ _ _ IsUint64 Reads-uhyper d.fileid c.0) (
      Reads-bind _ _ _ _ d.name d (Reads-field _ _ _ Reads-opaque d.name) (
        Reads-last _ _ _ d.cookie d (Reads-field_if _ _ _ IsUint64 Reads-uhyper d.cookie c.1) refl))

abbrev pub IsEntry3 : Entry3 → Type 0
IsEntry3 = IsLinked IsEntry3Fields

pub Reads-entry3 : (d : Entry3) → IsEntry3 d → Reads (pack_entry3 d) unpack_entry3 d
unfolding pack_entry3 unpack_entry3
Reads-entry3 d c =
    Reads-whole IsEntry3Fields pack_entry3_fields unpack_entry3_fields Reads-entry3_fields
      (λ k. Decodes-entry3_fields) d c

abbrev pub IsEntry3Array : Nodes Entry3Fields → Type 0
IsEntry3Array = IsNodes IsEntry3Fields

pub Reads-entry3_array :
    (d : Nodes Entry3Fields) → IsEntry3Array d → Reads (pack_entry3_array d) unpack_entry3_array d
unfolding pack_entry3_array unpack_entry3_array
Reads-entry3_array d c =
    Reads-whole_next IsEntry3Fields pack_entry3_fields unpack_entry3_fields Reads-entry3_fields
      (λ k. Decodes-entry3_fields) d c

abbrev pub IsDirlist3 : Dirlist3 → Type 0
IsDirlist3 d = OnSome IsEntry3Array d.entries × OnSome IsBit d.eof

pub Reads-dirlist3 : (d : Dirlist3) → IsDirlist3 d → Reads (pack_dirlist3 d) unpack_dirlist3 d
unfolding pack_dirlist3 unpack_dirlist3
Reads-dirlist3 d c =
    Reads-bind _ _ _ _ d.entries d
      (Reads-field_if _ _ _ IsEntry3Array Reads-entry3_array d.entries c.0)
      (Reads-last _ _ _ d.eof d (Reads-field_if _ _ _ IsBit Reads-bool d.eof c.1) refl)

abbrev pub IsReaddir3ResOk : Readdir3ResOk → Type 0
IsReaddir3ResOk d =
    OnSome IsPostOpAttr d.dir_attributes
    × OnSome IsCookieverf3 d.cookieverf
    × OnSome IsDirlist3 d.reply

pub Reads-readdir3resok :
    (d : Readdir3ResOk) → IsReaddir3ResOk d → Reads (pack_readdir3resok d) unpack_readdir3resok d
unfolding pack_readdir3resok unpack_readdir3resok
Reads-readdir3resok d c =
    Reads-bind _ _ _ _ d.dir_attributes d
      (Reads-field_if _ _ _ IsPostOpAttr Reads-post_op_attr d.dir_attributes c.0)
      (Reads-bind _ _ _ _ d.cookieverf d
        (Reads-field_if _ _ _ IsCookieverf3 Reads-cookieverf3 d.cookieverf c.1)
        (Reads-last _ _ _ d.reply d (Reads-field_if _ _ _ IsDirlist3 Reads-dirlist3 d.reply c.2)
          refl))

abbrev pub IsReaddir3Res : Readdir3Res → Type 0
IsReaddir3Res d =
    OnSome IsReaddir3ResOk d.resok
    × OnSome IsReaddir3ResFail d.resfail
    × (if field_is d.status nfs3_ok then (d.resfail ≡ none) else (d.resok ≡ none))

pub Reads-readdir3res :
    (d : Readdir3Res) → IsReaddir3Res d → Reads (pack_readdir3res d) unpack_readdir3res d
unfolding pack_readdir3res unpack_readdir3res
Reads-readdir3res d c = Reads-bind _ _ _ _ d.status d (Reads-field _ _ _ Reads-nfsstat3 d.status) (
    Reads-if (field_is d.status nfs3_ok) _ _ _ _ d
      (λ h0.
        let e = (rw h0 at c.2) in
        Reads-last _ _ _ d.resok d
          (Reads-field_if _ _ _ IsReaddir3ResOk Reads-readdir3resok d.resok c.0)
          (λ i. record { status = d.status; resok = d.resok; resfail = sym e i }))
      (λ h0.
        let e = (rw h0 at c.2) in
        Reads-last _ _ _ d.resfail d
          (Reads-field_if _ _ _ IsReaddir3ResFail Reads-readdir3resfail d.resfail c.1)
          (λ i. record { status = d.status; resok = sym e i; resfail = d.resfail })))

abbrev pub IsEntryplus3Fields : Entryplus3Fields → Type 0
IsEntryplus3Fields d =
    OnSome IsUint64 d.fileid
    × OnSome IsUint64 d.cookie
    × OnSome IsPostOpAttr d.name_attributes
    × OnSome IsPostOpFh3 d.name_handle

pub Reads-entryplus3_fields :
    (d : Entryplus3Fields)
    → IsEntryplus3Fields d
    → Reads (pack_entryplus3_fields d) unpack_entryplus3_fields d
unfolding pack_entryplus3_fields unpack_entryplus3_fields
Reads-entryplus3_fields d c =
    Reads-bind _ _ _ _ d.fileid d (Reads-field_if _ _ _ IsUint64 Reads-uhyper d.fileid c.0) (
      Reads-bind _ _ _ _ d.name d (Reads-field _ _ _ Reads-opaque d.name) (
        Reads-bind _ _ _ _ d.cookie d (Reads-field_if _ _ _ IsUint64 Reads-uhyper d.cookie c.1) (
          Reads-bind _ _ _ _ d.name_attributes d
            (Reads-field_if _ _ _ IsPostOpAttr Reads-post_op_attr d.name_attributes c.2)
            (Reads-last _ _ _ d.name_handle d
              (Reads-field_if _ _ _ IsPostOpFh3 Reads-post_op_fh3 d.name_handle c.3) refl))))

abbrev pub IsEntryplus3 : Entryplus3 → Type 0
IsEntryplus3 = IsLinked IsEntryplus3Fields

pub Reads-entryplus3 :
    (d : Entryplus3) → IsEntryplus3 d → Reads (pack_entryplus3 d) unpack_entryplus3 d
unfolding pack_entryplus3 unpack_entryplus3
Reads-entryplus3 d c =
    Reads-whole IsEntryplus3Fields pack_entryplus3_fields unpack_entryplus3_fields
      Reads-entryplus3_fields (λ k. Decodes-entryplus3_fields) d c

abbrev pub IsEntryplus3Array : Nodes Entryplus3Fields → Type 0
IsEntryplus3Array = IsNodes IsEntryplus3Fields

pub Reads-entryplus3_array :
    (d : Nodes Entryplus3Fields)
    → IsEntryplus3Array d
    → Reads (pack_entryplus3_array d) unpack_entryplus3_array d
unfolding pack_entryplus3_array unpack_entryplus3_array
Reads-entryplus3_array d c =
    Reads-whole_next IsEntryplus3Fields pack_entryplus3_fields unpack_entryplus3_fields
      Reads-entryplus3_fields (λ k. Decodes-entryplus3_fields) d c

abbrev pub IsDirlistplus3 : Dirlistplus3 → Type 0
IsDirlistplus3 d = OnSome IsEntryplus3Array d.entries × OnSome IsBit d.eof

pub Reads-dirlistplus3 :
    (d : Dirlistplus3) → IsDirlistplus3 d → Reads (pack_dirlistplus3 d) unpack_dirlistplus3 d
unfolding pack_dirlistplus3 unpack_dirlistplus3
Reads-dirlistplus3 d c =
    Reads-bind _ _ _ _ d.entries d
      (Reads-field_if _ _ _ IsEntryplus3Array Reads-entryplus3_array d.entries c.0)
      (Reads-last _ _ _ d.eof d (Reads-field_if _ _ _ IsBit Reads-bool d.eof c.1) refl)

abbrev pub IsReaddirplus3ResOk : Readdirplus3ResOk → Type 0
IsReaddirplus3ResOk d =
    OnSome IsPostOpAttr d.dir_attributes
    × OnSome IsCookieverf3 d.cookieverf
    × OnSome IsDirlistplus3 d.reply

pub Reads-readdirplus3resok :
    (d : Readdirplus3ResOk)
    → IsReaddirplus3ResOk d
    → Reads (pack_readdirplus3resok d) unpack_readdirplus3resok d
unfolding pack_readdirplus3resok unpack_readdirplus3resok
Reads-readdirplus3resok d c =
    Reads-bind _ _ _ _ d.dir_attributes d
      (Reads-field_if _ _ _ IsPostOpAttr Reads-post_op_attr d.dir_attributes c.0)
      (Reads-bind _ _ _ _ d.cookieverf d
        (Reads-field_if _ _ _ IsCookieverf3 Reads-cookieverf3 d.cookieverf c.1)
        (Reads-last _ _ _ d.reply d
          (Reads-field_if _ _ _ IsDirlistplus3 Reads-dirlistplus3 d.reply c.2) refl))

abbrev pub IsReaddirplus3Res : Readdirplus3Res → Type 0
IsReaddirplus3Res d =
    OnSome IsReaddirplus3ResOk d.resok
    × OnSome IsReaddirplus3ResFail d.resfail
    × (if field_is d.status nfs3_ok then (d.resfail ≡ none) else (d.resok ≡ none))

pub Reads-readdirplus3res :
    (d : Readdirplus3Res)
    → IsReaddirplus3Res d
    → Reads (pack_readdirplus3res d) unpack_readdirplus3res d
unfolding pack_readdirplus3res unpack_readdirplus3res
Reads-readdirplus3res d c =
    Reads-bind _ _ _ _ d.status d (Reads-field _ _ _ Reads-nfsstat3 d.status) (
      Reads-if (field_is d.status nfs3_ok) _ _ _ _ d
        (λ h0.
          let e = (rw h0 at c.2) in
          Reads-last _ _ _ d.resok d
            (Reads-field_if _ _ _ IsReaddirplus3ResOk Reads-readdirplus3resok d.resok c.0)
            (λ i. record { status = d.status; resok = d.resok; resfail = sym e i }))
        (λ h0.
          let e = (rw h0 at c.2) in
          Reads-last _ _ _ d.resfail d
            (Reads-field_if _ _ _ IsReaddirplus3ResFail Reads-readdirplus3resfail d.resfail c.1)
            (λ i. record { status = d.status; resok = sym e i; resfail = d.resfail })))
