-- ===== src/Aws.antt =====
-- awssqs, awskinesis and awsdynamodb: how the bindings to AWS settle the messages of a batch.
pub mod Batches
pub mod Sqs
pub mod Streams
pub mod Kinesis
pub mod Dynamo
pub mod Redelivery
pub mod Names
