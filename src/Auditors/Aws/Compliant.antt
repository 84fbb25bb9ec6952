-- ===== src/Auditors/Aws/Compliant.antt =====
-- What the checks of auditors/aws.py ask for, said of the answers of the session.
pub mod Iam
pub mod S3
pub mod Ec2
pub mod Rds
pub mod Services
pub mod Whole
