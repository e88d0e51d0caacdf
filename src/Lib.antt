-- ===== src/Lib.antt =====
-- xdg-desktop-portal-certificate lets an application sign and decrypt with the certificate on a smart
-- card. A broker (src/broker, src/tokens, src/core) finds tokens, lets the user choose a certificate,
-- asks for the PIN and drives the card; a PKCS#11 module (src/module) that applications load turns
-- PKCS#11 calls into calls of the portal, which reach the broker over D-Bus.
--
-- The files and what they model:
--   Module/Der: src/module/der.c, the DER reader and encoder (portal_der_read, portal_der_encode).
--   Module/Mechanism: src/module/mechanism.c, the tables of hashes and mechanisms, and the parser of the
--     DigestInfo that an application passes for CKM_RSA_PKCS (portal_digestinfo_parse).
--   Module/Objects: src/module/objects.c, the certificate and the keys that a grant shows as objects
--     (portal_objects_new in Module/Objects/Certificate), their attributes, and whether a search may open
--     the chooser (portal_template_intent in Module/Objects/Intent).
--   Module/Cryptoki: src/module/module.c, the entry points on a state of its statics: Lifecycle has
--     C_Initialize and C_Finalize, Slots and Sessions theirs, Search the searches and ensure_grant, Sign
--     and Perform signing, Decrypt decryption. Of src/module/portal.c it has what these ask of the client
--     (portal_client_grant_gone, operation, portal_client_sign, portal_client_decrypt).
--   Module/Rv and Module/Grant: the names and the grant that these share.
--   Broker/Mechanism: src/broker/mechanism.c, the mechanism of a request (certificate_mechanism_parse in
--     Broker/Mechanism/Parse), the input for the card (certificate_mechanism_prepare) and the DER form
--     of an ECDSA signature (certificate_ecdsa_raw_to_der in Broker/Mechanism/Ecdsa).
--   Broker/Device: src/broker/device.c, the session on a token with its private key (certificate_device_open,
--     certificate_device_login, certificate_device_perform, certificate_device_close), with the calls that
--     it makes; what the token answers to them is a parameter, Card.
--   Tokens/Filter: src/tokens/filter.c, what a request may be offered (certificate_filter_matches and
--     certificate_filter_apply) and the parsing of its filter (certificate_filter_parse).
--   Core/Pin: src/core/pin.c, the prompts for a PIN. Queue has certificate_pin_prompt_answer and the
--     queue of prompts, Steps the other handlers, Runs which call may come when.
--   Core/Secret: src/core/secret.c, the buffer that holds a PIN.
--   Core/Session: src/core/session.c, the session of a grant: closing and invalidation
--     (xcc_session_close_internal, xcc_session_invalidate_internal) with the requests that they cancel,
--     its making in Create (xcc_session_new) and the check of a caller in Caller
--     (xcc_session_check_principal). Once has the sequences of its calls.
-- The module and the broker meet at the portal's names of hashes and mechanisms, and at the DigestInfo:
-- the module takes apart what an application wrapped, the broker wraps it again for the card.
--
-- Bytes are native natural numbers below 256, buffers are lists, and a NULL array or string is `none`.
-- A call with a GError is a Result; the message of an error is left out. A GVariant is data of the types
-- that the code asks for. The constants of PKCS#11 and GnuTLS are constructors, as their headers are not
-- part of the repository; a value that the code does not name is `unlisted`. The comparison of texts
-- without regard to case is GLib's: it is a parameter, AsciiCase, with the two laws that the code relies on.
--
-- The memory of a CK_ULONG and the standard's values that attributes store are a parameter, Abi; the
-- certificate library, with its hash functions, is a parameter, Gnutls; what the portal answers to a
-- request, and the signals that come meanwhile, are a parameter, Service.
--
-- An entry point of the module runs under its lock, so it is one step on the state, on a snapshot of the
-- client; where the code releases the lock, the call ends in a state that waits, and the rest of it is
-- another step. MODULE_CHECK reads its flag before the lock is taken, so what it has read is an argument
-- of the call, whatever the state under the lock. The clocks are arguments.
--
-- A session without a context calls its adapter directly: a Callback is what the adapter does in that
-- call, which may be to close or to invalidate the session again, any number of times.
--
-- Bounds: the encoder's loop over the bytes of a length runs at most eight times, as a length is a
-- 64-bit number. The turns that one answer of a PIN prompt gives away are bounded by the length of the
-- queue, as each turn takes one prompt from it. Every other loop is structural recursion on a list.
--
-- The records of prompts stand in a store, since the queue, the active prompt and the workers share them.
-- A run is a sequence of calls, one at a time, as the main loop makes them; a worker returns in a step of
-- its own. Calls that leave the code are events, and a provider that calls back does so in a later step.
--
-- Not modelled: reference counts and the freeing of memory, log lines and display texts, drawing
-- (src/ui), D-Bus glue (src/certificate-impl.c, src/request-impl.c, src/session-impl.c), command line
-- (src/main.c), and calls of p11-kit and GnuTLS (src/tokens/discovery.c, src/tokens/pkcs11-util.c). Nor
-- are the chooser and the contexts of src/core, the operations of src/broker/operations.c, the entry points
-- of src/module/module.c that only return constants, and the client's own thread in src/module/portal.c.
mod Base
pub mod Ck
pub mod Glib
pub mod Broker
pub mod Module
pub mod Tokens
pub mod Core
mod Tests
