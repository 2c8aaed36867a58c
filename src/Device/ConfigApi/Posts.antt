-- ===== src/Device/ConfigApi/Posts.antt =====
-- src/web_config_api.cpp, handlePostConfig: what a write leaves.
use homekit_rf_ir_blaster.Base.{
  ℕ, ◌+◌, ◌%◌, ◌^◌, ◌<◌, ◌≡◌, refl, sym, ◌∙◌, Bool, true, false, Option, none, some, ◌==◌,
  if◌then◌else◌, Bytes, Bool-cases, inl, inr, arith,
}
use homekit_rf_ir_blaster.Config.Model.{Config}
use homekit_rf_ir_blaster.Config.Validate.{fine, validate}
use homekit_rf_ir_blaster.Config.Changes.{classify_change}
use homekit_rf_ir_blaster.Config.Store.{BlobStore}
use homekit_rf_ir_blaster.Config.Codec.{ConfigJson, is_fine, encode, save}
use homekit_rf_ir_blaster.Config.Mutate.Atomic.{is_fine_sound, save_refused, save_stored}
use homekit_rf_ir_blaster.Device.ConfigApi.{
  restart, apply, ConfigApi, Request, ApiReply, unauthorized, forbidden, bad_size, bad_json,
  bad_config, conflict, saved, query_rev, enqueue, needs_restart, put_config, post_body,
  handle_post_config,
}

abbrev pub is_saved : ApiReply → Bool
is_saved (saved rev restarts cfg) = true
is_saved _ = false

-- What a write may leave: without a success, everything as it was; with one, a new revision of a
-- configuration that validates and is stored, and the action that it needs.
pub record IsPosted {S : Type 0} (ops : BlobStore S) (json : ConfigJson) (a : ConfigApi S)
    (reply : ApiReply) (a' : ConfigApi S) : Type 0 where
  pub kept :
      is_saved reply ≡ false
      → (a'.config ≡ a.config)
        × (a'.rev ≡ a.rev)
        × (a'.pending ≡ a.pending)
        × (ops.get a'.store ≡ ops.get a.store)
  pub taken :
      is_saved reply ≡ true
      → (validate a'.config ≡ fine)
        × (a'.rev ≡ (a.rev + 1) % 2 ^ 32)
        × (ops.get a'.store ≡ encode json a'.config)
        × (a'.pending ≡ (
            if needs_restart (classify_change a.config.settings a'.config.settings)
            then restart
            else apply a'.config))

refused :
    {S : Type 0} (ops : BlobStore S) (json : ConfigJson) (a : ConfigApi S) (reply : ApiReply)
    → is_saved reply ≡ false
    → IsPosted ops json a reply a
refused ops json a reply e = record {
  kept = λ h. (refl, refl, refl, refl);
  taken = λ h. absurd (cc (e, h));
}

put_config-IsPosted :
    {S : Type 0} (ops : BlobStore S) (json : ConfigJson) (o : Option Config) (a : ConfigApi S)
    → IsPosted ops json a (put_config ops json o a).0 (put_config ops json o a).1
unfolding put_config enqueue
put_config-IsPosted ops json none a = refused ops json a bad_json refl
put_config-IsPosted ops json (some incoming) a = elim (Bool-cases (is_fine (validate incoming))) [
  | inr bad ↦ rw bad (refused ops json a bad_config refl)
  | inl good ↦ elim (Bool-cases (save ops json a.store incoming).0) [
    | inr full ↦
        rw (good, full)
          (record {
            kept = λ h. (refl, refl, refl, save_refused ops json a.store incoming full);
            taken = λ h. absurd (cc h);
          })
    | inl put ↦
        rw (good, put)
          (record {
            kept = λ h. absurd (cc h);
            taken = λ h. (
              is_fine_sound (validate incoming) good,
              refl,
              save_stored ops json a.store incoming put,
              refl,
            );
          })
  ]
]

post_body-IsPosted :
    {S : Type 0} (ops : BlobStore S) (json : ConfigJson) (o : Option Bytes) (q : Request)
    (a : ConfigApi S)
    → IsPosted ops json a (post_body ops json o q a).0 (post_body ops json o q a).1
      × (is_saved (post_body ops json o q a).0 ≡ true → (q.csrf ≡ true) × (query_rev q ≡ a.rev))
unfolding post_body
post_body-IsPosted ops json none q a = (refused ops json a bad_size refl, λ h. absurd (cc h))
post_body-IsPosted ops json (some body) q a = elim (Bool-cases q.csrf) [
  | inr no_token ↦ simp no_token (refused ops json a forbidden refl, λ h. absurd (cc h))
  | inl token ↦ elim (Bool-cases (query_rev q == a.rev)) [
    | inr stale ↦ simp (token, stale) (refused ops json a (conflict a.rev) refl, λ h. absurd (cc h))
    | inl current ↦
        simp (token, current)
          (
            put_config-IsPosted ops json (json.from_json body) a,
            λ h. (refl, ground (arith, current)),
          )
  ]
]

-- A write is atomic: any reply but a success leaves the configuration, the revision, the queued
-- action and the stored blob as they were; a success has a valid session and token and the current
-- revision, moves the revision on by one (mod 2^32), takes over and stores a configuration that
-- validates, and queues a restart or a live apply of it, as classifyChange says.
pub handle_post_config-IsPosted :
    {S : Type 0} (ops : BlobStore S) (json : ConfigJson) (q : Request) (a : ConfigApi S)
    → let (reply, a') = handle_post_config ops json q a in
      IsPosted ops json a reply a'
      × (is_saved reply ≡ true → (q.session ≡ true) × (q.csrf ≡ true) × (query_rev q ≡ a.rev))
unfolding handle_post_config
handle_post_config-IsPosted ops json q a = elim (Bool-cases q.session) [
  | inr none_valid ↦ simp none_valid (refused ops json a unauthorized refl, λ h. absurd (cc h))
  | inl valid ↦
      let (posted, allowed) = post_body-IsPosted ops json q.body q a in
      simp valid (posted, λ h. (refl, (allowed h).0, (allowed h).1))
]

rev_moves : (rev : ℕ) → rev < 2 ^ 32 → rev ≡ (rev + 1) % 2 ^ 32 → ⊥
rev_moves rev h e = omega (arith, h, e)

-- No update is lost: after a write that succeeded, a request that carries the revision from before
-- that write is no success, and leaves the configuration, the revision, the queued action and the
-- stored blob of that write as they are.
pub handle_post_config-stale :
    {S : Type 0} (ops : BlobStore S) (json : ConfigJson) (q stale : Request) (a : ConfigApi S)
    → a.rev < 2 ^ 32
    → is_saved (handle_post_config ops json q a).0 ≡ true
    → query_rev stale ≡ a.rev
    → let first = (handle_post_config ops json q a).1 in
      let (reply, second) = handle_post_config ops json stale first in
      (is_saved reply ≡ false)
      × (second.config ≡ first.config)
      × (second.rev ≡ first.rev)
      × (second.pending ≡ first.pending)
      × (ops.get second.store ≡ ops.get first.store)
handle_post_config-stale ops json q stale a word ok old =
    let first = (handle_post_config ops json q a).1 in
    let moved = ((handle_post_config-IsPosted ops json q a).0.taken ok).1 in
    let (posted, allowed) = handle_post_config-IsPosted ops json stale first in
    elim (Bool-cases (is_saved (handle_post_config ops json stale first).0)) [
      | inl again ↦ absurd (rev_moves a.rev word ((sym old ∙ (allowed again).2) ∙ moved))
      | inr refusal ↦
          let (config, rev, pending, blob) = posted.kept refusal in
          (refusal, config, rev, pending, blob)
    ]
