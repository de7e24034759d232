-- ===== src/Lockdown/Start/Handshakes.antt =====
-- src/lockdown.c: pairing and the handshake come to an end.
use libimobiledevice.Lockdown.Client.{Client}
