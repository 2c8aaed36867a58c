-- ===== src/Lib.antt =====
-- homekit-rf-ir-blaster: a model of the firmware's libraries and the theorems about it.
--
-- The firmware learns RF and infrared remotes, offers them to HomeKit as accessories and is set up
-- on a web page. Its logic stands in three libraries that do not depend on the hardware:
--
--   * lib/learn finds the repeats of a remote's signal. Learn/Match.antt is signal_match.cpp;
--     Learn/Merge.antt is frame_merge.cpp (declipBurst); Learn/Track.antt is the part of
--     LearnMachine::feedBurst and checkRolling that changes one receiver's track;
--     Learn/Machine.antt is the rest of learn_machine.cpp, with the calls a driver makes as the
--     data type Event and their effect as `step`.
--   * lib/config holds the configuration. Config/Model.antt is config_model.h; Config/Ip.antt is
--     ip_util.h; Config/Host.antt and Config/Validate.antt are config_validate.cpp;
--     Config/Store.antt is blob_store.h and memory_blob_store.h; Config/Crc.antt is crc32.cpp;
--     Config/Codec.antt is config_codec.cpp; Config/Plan.antt is accessory_plan.cpp;
--     Config/Mutate.antt is config_mutate.cpp; Config/Changes.antt is settings_change.h.
--   * lib/runtime guards the web page. Runtime/Throttle.antt is login_throttle.cpp;
--     Runtime/Crypto.antt is crypto.h; Runtime/Encoding.antt is encoding.cpp;
--     Runtime/Decimal.antt and Runtime/Session.antt are session.cpp; Runtime/Password.antt is
--     password.cpp; Runtime/Csrf.antt is csrf.cpp; Runtime/Policy.antt is request_policy.cpp;
--     Runtime/ClientKey.antt is client_key.cpp; Runtime/Headers.antt is security_headers.cpp;
--     Runtime/Setup.antt is setup_state.cpp; Runtime/Boot.antt is boot_recovery.cpp.
--   * src is the device's own code, over ESP-IDF. Device/Rmt.antt is src/rmt_pulse.h;
--     Device/Receive.antt is collapseBand of src/radios.cpp and pollIRBurst of src/ir.cpp;
--     Device/Radio.antt is the arming, disarming and sending of the same two files;
--     Device/Learning.antt is src/learn.cpp; Device/LearnApi.antt is the learn session of
--     src/web_config_api.cpp, and Device/ConfigApi.antt its configuration writes and their queue;
--     Device/Sends.antt is the sending part of src/accessory_builder.cpp; Device/AuthStore.antt is
--     src/auth_store.cpp; Device/Auth.antt is the gate and the handlers of src/web_auth.cpp, and
--     Device/Form.antt its form decoding; Device/Recovery.antt is src/recovery.cpp;
--     Device/Onboarding.antt is the input checks and the network list of src/onboarding.cpp.
--
-- The parts meet where one's result is another's input: the receivers' bursts go to the capture
-- machine through the learning driver, which the web API's learn session polls; the machine hands
-- a StoredCode to the configuration, whose validation judges it; the changes of the configuration
-- go through validation and the codec to the store, and from the web API's queue to the sender,
-- which finds a code by its command and keys it; and the request policy reads the validated
-- settings. The server's task and the loop's task share the learn session's phase and the queue:
-- the steps of the two are explicit, in any order.
--
-- How the code is represented. A function is a function by clauses under the source's name in
-- snake case; a method that changes its object takes the object as a record and returns the new
-- one. Text and buffers are lists of byte values, a uint16_t buffer is a list of numbers. A
-- machine-width integer keeps its wrap-around as a remainder where the code can reach it. A
-- pointer into a table is an index, and a pointer that may be null is an Option. An output
-- parameter with a Boolean result is an Option too. A read at an index out of
-- range gives a default value.
--
-- Bounds and fuel. The decimal printer makes at most 20 digits, which a uint64_t never exceeds; the
-- address parser has one step for each character of its text, and each step takes one or more. All
-- other loops are structural.
--
-- What is taken as a parameter: HMAC and PBKDF2 (the record Crypto, with the sizes of what they
-- write), the blob store of the device (the record BlobStore, with what its comments promise),
-- the strings and bytes of NVS (the records Nvs and NvsBytes, with what its documentation says
-- of reads after writes, erasures and commits, which may fail) and the JSON text of a
-- configuration (the record ConfigJson, without
-- any promise), which is read and written with ArduinoJson. Of the hardware, the answers of the
-- RMT driver, the frames that the receivers complete and the clock are arguments of the
-- functions that use them (the learn session's driver takes the time modulo 2^32, as millis() shows
-- it); of the HTTP server, what it and the session check say of a request.
-- What is not modelled: the register values and SPI commands of the radios, the pages that
-- src/web_server.cpp serves, the portal of src/onboarding.cpp, the LED, HomeSpan's services and
-- the bindings to NVS and mbedTLS; the browser code of web/; and the tools.
pub mod Base
pub mod Config
pub mod Device
pub mod Learn
pub mod Runtime
pub mod Tests
