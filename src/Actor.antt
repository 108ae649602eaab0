-- ===== src/Actor.antt =====
-- include/jellybean/actor and src/actor: messages, mailboxes and the registry of actors.
pub mod Message
