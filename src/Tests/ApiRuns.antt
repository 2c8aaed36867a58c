-- ===== src/Tests/ApiRuns.antt =====
-- Runs of src/accessory_builder.cpp and of the configuration's part of src/web_config_api.cpp.
use homekit_rf_ir_blaster.Base.{
  ◌*◌, ◌<◌, ◌++◌, ◌≤◌, ◌≡◌, ◌≢◌, inl, refl, true, false, List, [], ◌∷◌, some, length, null, codes,
  arith,
}
use homekit_rf_ir_blaster.Config.Model.{CodeKind, StoredCode, empty_code, Config, default_config}
use homekit_rf_ir_blaster.Config.Validate.{validate, check_port, check_domain, check_devices}
use homekit_rf_ir_blaster.Config.Store.{MemoryBlobStore, memory_store, memory_put}
use homekit_rf_ir_blaster.Config.Crc.{crc32}
use homekit_rf_ir_blaster.Config.Codec.{ConfigJson, save}
use homekit_rf_ir_blaster.Device.Radio.{TxAnswers, Receivers}
use homekit_rf_ir_blaster.Device.Learning.{at_start}
use homekit_rf_ir_blaster.Device.Sends.{PendingSeq, Sender, rf_reps, copies, is_due, aid_busy}
use homekit_rf_ir_blaster.Device.Sends.Burst.{IsKeyed, rf_words, rf_burst-IsKeyed}
use homekit_rf_ir_blaster.Device.Rmt.Timing.{halves_needed}
use homekit_rf_ir_blaster.Device.Rmt.Cut.{whole_time, burst_time}
use homekit_rf_ir_blaster.Device.Sends.Repeats.{IsSender, Act, commands, polls, acts, acts-IsSender}
use homekit_rf_ir_blaster.Device.Sends.Drained.{
  Poll, AreTimely, total_left, poll_all, poll_all-drained,
}
use homekit_rf_ir_blaster.Device.ConfigApi.{
  ConfigApi, Request, accepted, nothing, query_rev, handle_post_config, handle_factory_reset,
  poll_config_apply, erases_and_restarts, needs_restart,
}
use homekit_rf_ir_blaster.Device.ConfigApi.Posts.{
  IsPosted, is_saved, handle_post_config-IsPosted, handle_post_config-stale,
}
use homekit_rf_ir_blaster.Device.ConfigApi.Queue.{write_effect, handle_factory_reset-overwritten}
use homekit_rf_ir_blaster.Config.Changes.{classify_change}

abbrev rf_code : StoredCode
rf_code = record empty_code {
  kind = CodeKind.rf;
  freq_mhz = 433;
  pulses = 350 ∷ 1050 ∷ 350 ∷ 9000 ∷ [];
  frame_repeat = 3;
}

rf_burst-IsKeyed_example : IsKeyed rf_code (rf_reps rf_code)
rf_burst-IsKeyed_example = rf_burst-IsKeyed rf_code (omega arith) (omega arith) refl (omega arith)

-- 64 durations with the longest reset gap: eight copies take 528 halves.
abbrev long_gap_code : StoredCode
long_gap_code = record rf_code {
  pulses = copies 31 (350 ∷ 1050 ∷ []) ++ (350 ∷ 65535 ∷ []);
  frame_repeat = 8;
}

long_gap_copies : rf_reps long_gap_code ≡ 8
unfolding rf_reps copies
long_gap_copies = refl

long_gap_halves : halves_needed long_gap_code.pulses ≡ 66
unfolding halves_needed copies
long_gap_halves = refl

long_gap_is_cut :
    whole_time (rf_words long_gap_code) < rf_reps long_gap_code * burst_time long_gap_code.pulses
unfolding copies rf_reps
long_gap_is_cut =
    (rf_burst-IsKeyed long_gap_code (omega arith) (omega arith) refl (omega arith)).cut
      (omega (arith, long_gap_copies, long_gap_halves))

abbrev lamp : Config
lamp = record default_config {
  devices =
      record {
        id = 2;
        service = codes "Switch";
        name = codes "Lamp";
        commands =
            record { name = codes "on"; code = rf_code; repeat_count = 3; repeat_delay_ms = 200 }
            ∷ [];
      }
      ∷ [];
}

abbrev all_sent : TxAnswers
all_sent = record {
  new_channel = true;
  new_encoder = true;
  carrier_applied = true;
  enabled = true;
  transmitted = true;
}

abbrev quiet : Receivers
quiet = (at_start true).receivers

abbrev idle_sender : Sender
idle_sender = record { config = lamp; pending = [] }

abbrev lamp_acts : List Act
lamp_acts = commands all_sent quiet 1000 2 (codes "on") ∷ polls (λ p. all_sent) quiet 1200 ∷ []

acts-IsSender_example : IsSender (acts lamp_acts idle_sender)
acts-IsSender_example = acts-IsSender lamp_acts idle_sender (record { each = tt; apart = tt })

-- A sequence with one send left that was due at 1000 ms.
abbrev last_send : PendingSeq
last_send = record {
  aid = 2;
  name = codes "on";
  sends_left = 1;
  delay_ms = 200;
  next_fire_ms = 1000;
}

abbrev busy_sender : Sender
busy_sender = record { config = lamp; pending = last_send ∷ [] }

busy_sender-IsSender : IsSender busy_sender
busy_sender-IsSender = record {
  each = (record { some_left = omega arith; few_left = omega arith; delay = omega arith }, tt);
  apart = (unfold aid_busy in refl, tt);
}

abbrev one_poll : List Poll
one_poll = record { answers = λ p. all_sent; receivers = quiet; now = 1001 } ∷ []

one_poll_timely : AreTimely one_poll busy_sender
unfolding is_due
one_poll_timely = (inl refl, tt)

poll_all-drained_example :
    (null (poll_all one_poll busy_sender).0.pending ≡ true)
    × (length (poll_all one_poll busy_sender).1 ≤ total_left busy_sender.pending)
poll_all-drained_example =
    poll_all-drained one_poll busy_sender busy_sender-IsSender one_poll_timely (omega arith)

-- A text form for the runs: one byte, read back as the default configuration.
abbrev short_json : ConfigJson
short_json = record { to_json = λ c. some (b'{' ∷ []); from_json = λ text. some default_config }

abbrev api : ConfigApi MemoryBlobStore
api = record {
  config = lamp;
  rev = 1;
  store = record { capacity = 64; present = false; blob = [] };
  ota_password = [];
  pending = nothing;
}

abbrev write : Request
write = record { session = true; csrf = true; body = some (b'{' ∷ []); rev = some 1 }

write_saved : is_saved (handle_post_config memory_store short_json write api).0 ≡ true
unfolding handle_post_config validate check_port check_domain check_devices save memory_put crc32
write_saved = refl

handle_post_config-IsPosted_example :
    let (reply, after) = handle_post_config memory_store short_json write api in
    IsPosted memory_store short_json api reply after
    × (is_saved reply ≡ true
        → (write.session ≡ true) × (write.csrf ≡ true) × (query_rev write ≡ api.rev))
handle_post_config-IsPosted_example = handle_post_config-IsPosted memory_store short_json write api

current_rev : query_rev write ≡ api.rev
unfolding query_rev
current_rev = refl

handle_post_config-stale_example :
    let first = (handle_post_config memory_store short_json write api).1 in
    let (reply, second) = handle_post_config memory_store short_json write first in
    (is_saved reply ≡ false)
    × (second.config ≡ first.config)
    × (second.rev ≡ first.rev)
    × (second.pending ≡ first.pending)
    × (memory_store.get second.store ≡ memory_store.get first.store)
handle_post_config-stale_example =
    handle_post_config-stale memory_store short_json write write api (omega arith) write_saved
      current_rev

reset_accepted : (handle_factory_reset write api).0 ≡ accepted
unfolding handle_factory_reset
reset_accepted = refl

write_saved_after :
    is_saved (handle_post_config memory_store short_json write (handle_factory_reset write api).1).0
    ≡ true
unfolding handle_factory_reset handle_post_config validate check_port check_domain check_devices
    save memory_put crc32
write_saved_after = refl

handle_factory_reset-overwritten_example :
    let queued = (handle_factory_reset write api).1 in
    let written = (handle_post_config memory_store short_json write queued).1 in
    ((poll_config_apply written).0
      ≡ write_effect
          (needs_restart (classify_change queued.config.settings written.config.settings))
          written.config)
    × ((poll_config_apply written).0 ≢ erases_and_restarts)
handle_factory_reset-overwritten_example =
    handle_factory_reset-overwritten memory_store short_json write write api reset_accepted
      write_saved_after
