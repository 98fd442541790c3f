-- ===== src/Rfc1813/Listing/Tests.antt =====
-- The codec at directory listings.
use perennial.Prelude.{inl, inr, ◌≡◌, refl, none, some, [], ◌∷◌, ◌++◌, arith}
use perennial.Outcome.{ok, err}
use perennial.Xdr.Decodes.{Ends}
use perennial.Xdr.{
  pos, Bytes, Packing, pack_uint, pack_int, pack_bool, pack_uhyper, pack_fopaque, pack_opaque,
  pack_enum,
}
use perennial.Xdr.Linked.{Nodes, last, more, node, set, pack_linked}
use perennial.Rfc1813.Basic.{pack_nfsstat3, pack_cookieverf3}
use perennial.Rfc1813.Structs.{pack_nfs_fh3}
use perennial.Rfc1813.Attributes.{PostOpAttr, PostOpFh3, pack_post_op_attr, pack_post_op_fh3}
use perennial.Rfc1813.Listing.{
  Entryplus3Fields, Readdirplus3Res, pack_entryplus3_fields, pack_entryplus3_array,
  pack_dirlistplus3, pack_readdirplus3resok, pack_readdirplus3res, unpack_readdirplus3res,
  unpack_readdir3res,
}
use perennial.Rfc1813.Attributes.RoundTrip.{IsPostOpAttr, IsPostOpFh3}
use perennial.Rfc1813.Listing.RoundTrip.{IsReaddirplus3Res}
use perennial.Rfc1813.Listing.Messages.{
  unpack_readdirplus3res-pack_readdirplus3res, unpack_readdir-Ends,
}

abbrev listed : Packing → Bytes
listed p = elim (p []) [ ok b ↦ b | err e ↦ [] ]

abbrev no_attr : PostOpAttr
no_attr = record { attributes_follow = some (pos 0); attributes = none }

abbrev handle_of_file : PostOpFh3
handle_of_file = record {
  handle_follows = some (pos 1);
  handle = some (record { contents = some (5 ∷ []) });
}

-- Two files, named a and b.
abbrev two_files : Nodes Entryplus3Fields
two_files =
    more
      (node
        (record {
          fileid = some 11;
          name = some (97 ∷ []);
          cookie = some 1;
          name_attributes = some no_attr;
          name_handle = some handle_of_file;
        })
        (set (
          more
            (node
              (record {
                fileid = some 12;
                name = some (98 ∷ []);
                cookie = some 5_000_000_000;
                name_attributes = some no_attr;
                name_handle = some handle_of_file;
              })
              (set last))
            last)))
      last

abbrev listing_plus : Readdirplus3Res
listing_plus = record {
  status = some (pos 0);
  resok = some (record {
    dir_attributes = some no_attr;
    cookieverf = some (0 ∷ 0 ∷ 0 ∷ 0 ∷ 0 ∷ 0 ∷ 0 ∷ 9 ∷ []);
    reply = some (record { entries = some two_files; eof = some (pos 1) });
  });
  resfail = none;
}

listing_plus_packs :
    pack_readdirplus3res listing_plus [] ≡ ok (listed (pack_readdirplus3res listing_plus))
unfolding pack_readdirplus3res pack_readdirplus3resok pack_dirlistplus3 pack_entryplus3_array
    pack_entryplus3_fields pack_linked pack_nfsstat3 pack_enum pack_int pack_uint pack_uhyper
    pack_bool pack_cookieverf3 pack_fopaque pack_opaque pack_post_op_attr pack_post_op_fh3
    pack_nfs_fh3
listing_plus_packs = refl

listing_plus-IsReaddirplus3Res : IsReaddirplus3Res listing_plus
listing_plus-IsReaddirplus3Res =
    let attr : IsPostOpAttr no_attr = (inl refl, tt, refl) in
    let file : IsPostOpFh3 handle_of_file = (inr refl, tt) in
    (
      (
        attr,
        refl,
        (
          (
            (
              (omega arith, omega arith, attr, file),
              (((omega arith, omega arith, attr, file), tt), tt),
            ),
            tt,
          ),
          inr refl,
        ),
      ),
      tt,
      refl,
    )

unpack_readdirplus3res-pack_readdirplus3res_example :
    unpack_readdirplus3res (listed (pack_readdirplus3res listing_plus) ++ (1 ∷ []))
    ≡ ok (listing_plus, 1 ∷ [])
unpack_readdirplus3res-pack_readdirplus3res_example =
    unpack_readdirplus3res-pack_readdirplus3res listing_plus
      (listed (pack_readdirplus3res listing_plus)) (1 ∷ []) listing_plus-IsReaddirplus3Res
      listing_plus_packs

-- A listing that announces more than there is.
unpack_readdir-Ends_example :
    Ends (unpack_readdir3res (0 ∷ 0 ∷ 0 ∷ 0 ∷ 0 ∷ 0 ∷ 0 ∷ 0 ∷ 255 ∷ []))
    × Ends (unpack_readdirplus3res (0 ∷ 0 ∷ 0 ∷ 0 ∷ 0 ∷ 0 ∷ 0 ∷ 0 ∷ 255 ∷ []))
unpack_readdir-Ends_example = unpack_readdir-Ends (0 ∷ 0 ∷ 0 ∷ 0 ∷ 0 ∷ 0 ∷ 0 ∷ 0 ∷ 255 ∷ [])
