-- ===== src/MyResources/Keys.antt =====
-- frontend/src/pages/MyResourcesPage.js: its tables.
use wolkvorm.Base.{List, [], ◌∷◌, Text, codes}

-- `arnKeys`, the outputs that identify a resource, the first one that is there first
unfoldable pub arn_keys : List Text
arn_keys =
    codes "arn"
    ∷ codes "id"
    ∷ codes "s3_bucket_arn"
    ∷ codes "s3_bucket_id"
    ∷ codes "dns_name"
    ∷ codes "lb_arn"
    ∷ codes "lb_dns_name"
    ∷ codes "alb_arn"
    ∷ codes "iam_role_arn"
    ∷ codes "role_arn"
    ∷ codes "iam_policy_arn"
    ∷ codes "policy_arn"
    ∷ codes "instance_profile_arn"
    ∷ codes "lambda_function_arn"
    ∷ codes "lambda_function_invoke_arn"
    ∷ codes "lambda_function_name"
    ∷ codes "cluster_arn"
    ∷ codes "cluster_endpoint"
    ∷ codes "cluster_id"
    ∷ codes "cluster_name"
    ∷ codes "db_instance_arn"
    ∷ codes "db_instance_endpoint"
    ∷ codes "db_instance_identifier"
    ∷ codes "vpc_id"
    ∷ codes "vpc_arn"
    ∷ codes "vpc_cidr_block"
    ∷ codes "repository_arn"
    ∷ codes "repository_url"
    ∷ codes "repository_name"
    ∷ codes "topic_arn"
    ∷ codes "queue_arn"
    ∷ codes "queue_url"
    ∷ codes "key_arn"
    ∷ codes "key_id"
    ∷ codes "acm_certificate_arn"
    ∷ codes "secret_arn"
    ∷ codes "secret_id"
    ∷ codes "secret_name"
    ∷ codes "security_group_arn"
    ∷ codes "security_group_id"
    ∷ codes "cloudfront_distribution_arn"
    ∷ codes "cloudfront_distribution_id"
    ∷ codes "cloudfront_distribution_domain_name"
    ∷ codes "dynamodb_table_arn"
    ∷ codes "dynamodb_table_id"
    ∷ codes "replication_group_arn"
    ∷ codes "autoscaling_group_arn"
    ∷ codes "autoscaling_group_name"
    ∷ codes "api_arn"
    ∷ codes "api_id"
    ∷ codes "api_endpoint"
    ∷ codes "name_servers"
    ∷ codes "key_pair_arn"
    ∷ codes "key_pair_id"
    ∷ codes "key_pair_name"
    ∷ []

-- SCHEMA_ICONS
unfoldable pub schema_icons : List (Text × Text)
schema_icons =
    (codes "s3", codes "S3")
    ∷ (codes "ec2", codes "EC2")
    ∷ (codes "rds", codes "RDS")
    ∷ (codes "vpc", codes "VPC")
    ∷ (codes "eks", codes "EKS")
    ∷ (codes "lambda", codes "FN")
    ∷ (codes "ecs", codes "ECS")
    ∷ (codes "dynamodb", codes "DB")
    ∷ (codes "cloudfront", codes "CF")
    ∷ (codes "alb", codes "ALB")
    ∷ (codes "iam-role", codes "IAM")
    ∷ (codes "security-group", codes "SG")
    ∷ (codes "sns", codes "SNS")
    ∷ (codes "sqs", codes "SQS")
    ∷ (codes "ecr", codes "ECR")
    ∷ (codes "route53", codes "R53")
    ∷ (codes "acm", codes "ACM")
    ∷ (codes "kms", codes "KMS")
    ∷ (codes "elasticache", codes "EC")
    ∷ (codes "autoscaling", codes "AS")
    ∷ (codes "apigateway", codes "API")
    ∷ (codes "secrets-manager", codes "SM")
    ∷ (codes "iam-policy", codes "POL")
    ∷ (codes "key-pair", codes "KEY")
    ∷ []
