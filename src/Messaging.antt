-- ===== src/Messaging.antt =====
-- libs/messaging/src: the Kafka producer service and the topic initialiser. kafkajs is a parameter.
pub mod Producer
pub mod Topics
