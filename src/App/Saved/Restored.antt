-- ===== src/App/Saved/Restored.antt =====
-- What is saved is restored (`save_session` and `try_restore_session` of app/main.cpp).
use imrmf_map_editor.Base.{
  ◌≡◌, refl, sym, ◌∙◌, true, false, take, if◌then◌else◌, Bool-cases, inl, inr,
}
use imrmf_map_editor.Base.Int.{pos, eqb_ℤ}
use imrmf_map_editor.Base.Text.{is_empty-true, codes, text_eq, is_empty}
use imrmf_map_editor.Building.{find}
use imrmf_map_editor.Server.Protocol.{all_id_chars}
use imrmf_map_editor.App.Json.{ConnectionForm, strip_prefix, after_first, json_string_field, sent}
use imrmf_map_editor.App.Json.ReadBack.{member_of, mount_members}
use imrmf_map_editor.App.Saved.{Place, save_session, restore_mount, try_restore_session}
use imrmf_map_editor.App.Saved.Fields.{
  saved_field, blob_key, has-field, plain_kind, plain_path, plain_bucket, plain_prefix,
  plain_region, plain_access, plain_secret, plain_endpoint,
}

-- The form that comes back, where `g` is the form before and `f` the one that was saved: each field of the
-- store, cut to the size of its buffer, and no credential that the server held.
abbrev pub restored : ConnectionForm → ConnectionForm → ConnectionForm
restored f g =
    if eqb_ℤ f.kind_idx (pos 0)
    then record g { kind_idx = pos 0; local_path = take 511 f.local_path }
    else record g {
      kind_idx = pos 1;
      s3_bucket = take 127 f.s3_bucket;
      s3_prefix = take 127 f.s3_prefix;
      s3_region = take 63 f.s3_region;
      s3_access = take 127 (sent f.s3_access_is_server_held f.s3_access);
      s3_secret = take 255 (sent f.s3_secret_is_server_held f.s3_secret);
      s3_endpoint = take 255 f.s3_endpoint;
    }

endpoint_of :
    (f : ConnectionForm)
    → eqb_ℤ f.kind_idx (pos 0) ≡ false
    → member_of (codes "endpoint_url") (mount_members f) ≡ f.s3_endpoint
unfolding find text_eq
endpoint_of f s3 = elim (Bool-cases (is_empty f.s3_endpoint)) [
  | inl absent ↦
      rw (member_of, mount_members, s3, absent) (sym (is_empty-true f.s3_endpoint absent))
  | inr given ↦ rw (member_of, mount_members, s3, given) refl
]

-- The members of the blob by kind, but for the endpoint.
module _ (f : ConnectionForm) where
  local_member :
      eqb_ℤ f.kind_idx (pos 0) ≡ true
      → (member_of (codes "kind") (mount_members f) ≡ codes "local")
        × (member_of (codes "path") (mount_members f) ≡ f.local_path)
  unfolding find text_eq
  local_member e = rw (member_of, mount_members, e) (refl, refl)

  s3_member :
      eqb_ℤ f.kind_idx (pos 0) ≡ false
      → (member_of (codes "kind") (mount_members f) ≡ codes "s3")
        × (member_of (codes "bucket") (mount_members f) ≡ f.s3_bucket)
        × (member_of (codes "prefix") (mount_members f) ≡ f.s3_prefix)
        × (member_of (codes "region") (mount_members f) ≡ f.s3_region)
        × (member_of (codes "access_key_id") (mount_members f)
            ≡ sent f.s3_access_is_server_held f.s3_access)
        × (member_of (codes "secret_access_key") (mount_members f)
            ≡ sent f.s3_secret_is_server_held f.s3_secret)
  unfolding find text_eq
  s3_member e = rw (member_of, mount_members, e) (refl, refl, refl, refl, refl, refl)

restore_mount-saved :
    (p : Place) (g : ConnectionForm) → restore_mount (save_session p) g ≡ restored p.form g
unfolding text_eq restore_mount
restore_mount-saved p g = elim (Bool-cases (eqb_ℤ p.form.kind_idx (pos 0))) [
  | inl local ↦
      let (kind_is, path_is) = local_member p.form local in
      let kind = blob_key p (codes "kind") plain_kind ∙ kind_is in
      let path = blob_key p (codes "path") plain_path ∙ path_is in
      rw
        (
          restore_mount,
          has-field (save_session p) (codes "kind") (rw kind refl),
          kind,
          path,
          restored,
          local,
        )
        refl
  | inr s3 ↦
      let (kind_is, bucket_is, prefix_is, region_is, access_is, secret_is) = s3_member p.form s3 in
      let kind = blob_key p (codes "kind") plain_kind ∙ kind_is in
      rw
        (
          restore_mount,
          has-field (save_session p) (codes "kind") (rw kind refl),
          kind,
          blob_key p (codes "bucket") plain_bucket ∙ bucket_is,
          blob_key p (codes "prefix") plain_prefix ∙ prefix_is,
          blob_key p (codes "region") plain_region ∙ region_is,
          blob_key p (codes "access_key_id") plain_access ∙ access_is,
          blob_key p (codes "secret_access_key") plain_secret ∙ secret_is,
          blob_key p (codes "endpoint_url") plain_endpoint ∙ endpoint_of p.form s3,
          restored,
          s3,
        )
        refl
]

outer_fields :
    (p : Place)
    → (json_string_field (save_session p) (codes "server_url") ≡ p.server_url)
      × (json_string_field (save_session p) (codes "building_id") ≡ p.building_id)
unfolding all_id_chars json_string_field after_first strip_prefix find text_eq
outer_fields p =
    (saved_field p (codes "server_url") refl refl, saved_field p (codes "building_id") refl refl)

saved_nonempty : (p : Place) → is_empty (save_session p) ≡ false
unfolding save_session
saved_nonempty p = refl

-- A session on a server and a map, once saved, is restored whatever was in the form before, and is
-- mounted: the server, the map, the kind of the store and its fields come back, each cut to its buffer, but
-- for the branch, which stays what it was, and for the credentials that the server held.
pub try_restore_session-save_session :
    (p q : Place)
    → is_empty p.server_url ≡ false
    → is_empty p.building_id ≡ false
    → try_restore_session (save_session p) q ≡ (
      record {
        form = restored p.form (record (q.form) {
          server_url = take 255 p.server_url;
          building_id = take 63 p.building_id;
        });
        server_url = p.server_url;
        building_id = p.building_id;
      },
      true,
    )
unfolding try_restore_session
try_restore_session-save_session p q server id =
    let (server_is, id_is) = outer_fields p in
    rw
      (
        try_restore_session,
        server_is,
        id_is,
        saved_nonempty p,
        server,
        id,
        restore_mount-saved p (record (q.form) {
          server_url = take 255 p.server_url;
          building_id = take 63 p.building_id;
        }),
      )
      refl
